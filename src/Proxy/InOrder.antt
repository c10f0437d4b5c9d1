-- ===== src/Proxy/InOrder.antt =====
-- cmd/proxy.go: items of a queue in order, those taken from it, and the events made of them.
use mathlib.Core.List.Sublist
use mathlib.Core.List.{Sublist, sublist-append_left, append-nil}
use passwd_pot.Common.{Bytes, List, [], ◌∷◌, ◌++◌, Option, some, ◌≡◌, ap, sym, append_assoc, ◌∙◌}
use passwd_pot.Api.{Event}
use passwd_pot.Proxy.{Queue}
use passwd_pot.Proxy.Batch.{Decodes}
use passwd_pot.Proxy.Rounds.{Drainer, idle, collecting, send_batch}

-- The events of the batches, in order.
abbrev pub all_events : List (List Event) → List Event
all_events [] = []
all_events (es ∷ bs) = es ++ all_events bs

abbrev pub held : Drainer → List Event
held idle = []
held (collecting size es) = es

pub all_events-snoc :
    (bs : List (List Event)) (es : List Event) → all_events (bs ++ es ∷ []) ≡ all_events bs ++ es
all_events-snoc [] es = append-nil es
all_events-snoc (b ∷ bs) es =
    ap (λ fs. b ++ fs) (all_events-snoc bs es) ∙ sym (append_assoc b (all_events bs) es)

pub all_events-send_batch :
    (queue : Queue) (es : List Event) (bs : List (List Event))
    → all_events (send_batch queue es bs) ≡ all_events bs ++ es
all_events-send_batch queue [] bs = sym (append-nil (all_events bs))
all_events-send_batch queue (e ∷ es) bs = all_events-snoc bs (e ∷ es)

module _ (decode : Bytes → Option Event) where
  -- The items that were posted are those that were taken from the queue and those that are in it.
  -- Of the former, `delivered` were sent and `held_items` are in the hands of a drain; both
  -- together are some of those taken, each once and in their order.
  pub record InOrder (posted queued : List Bytes) (sent in_hand : List Event) : Type 0 where
    pub taken : List Bytes
    pub delivered : List Bytes
    pub held_items : List Bytes
    pub parts : posted ≡ taken ++ queued
    pub thinned : Sublist (delivered ++ held_items) taken
    pub sent_events : Decodes decode delivered sent
    pub held_events : Decodes decode held_items in_hand

  pub Decodes-append :
      (vs ws : List Bytes) (es fs : List Event)
      → Decodes decode vs es
      → Decodes decode ws fs
      → Decodes decode (vs ++ ws) (es ++ fs)
  Decodes-append [] ws [] fs h k = k
  Decodes-append [] ws (e ∷ es) fs h k = absurd h
  Decodes-append (v ∷ vs) ws [] fs h k = absurd h
  Decodes-append (v ∷ vs) ws (e ∷ es) fs (hv, h) k = (hv, Decodes-append vs ws es fs h k)

  module _ {posted queued : List Bytes} {sent in_hand : List Event}
      (i : InOrder posted queued sent in_hand) where
    -- A new item behind those in the queue.
    pub post : (v : Bytes) → InOrder (posted ++ v ∷ []) (queued ++ v ∷ []) sent in_hand
    post v = record {
      taken = i.taken;
      delivered = i.delivered;
      held_items = i.held_items;
      parts = ap (λ (ws : List Bytes). ws ++ v ∷ []) i.parts ∙ append_assoc i.taken queued (v ∷ []);
      thinned = i.thinned;
      sent_events = i.sent_events;
      held_events = i.held_events;
    }

    -- The events in hand are sent.
    pub send : InOrder posted queued (sent ++ in_hand) []
    send = record {
      taken = i.taken;
      delivered = i.delivered ++ i.held_items;
      held_items = [];
      parts = i.parts;
      thinned = rw (append-nil (i.delivered ++ i.held_items)) i.thinned;
      sent_events =
          Decodes-append i.delivered i.held_items sent in_hand i.sent_events i.held_events;
      held_events = tt;
    }

    -- The events in hand are dropped.
    pub drop_held : InOrder posted queued sent []
    drop_held = record {
      taken = i.taken;
      delivered = i.delivered;
      held_items = [];
      parts = i.parts;
      thinned =
          rw (append-nil i.delivered)
            (Sublist.trans (sublist-append_left i.delivered i.held_items) i.thinned);
      sent_events = i.sent_events;
      held_events = tt;
    }

  module _ {posted : List Bytes} (v : Bytes) {queued : List Bytes} {sent in_hand : List Event}
      (i : InOrder posted (v ∷ queued) sent in_hand) where
    -- The first item of the queue is taken and lost.
    pub lose : InOrder posted queued sent in_hand
    lose = record {
      taken = i.taken ++ v ∷ [];
      delivered = i.delivered;
      held_items = i.held_items;
      parts = i.parts ∙ sym (append_assoc i.taken (v ∷ []) queued);
      thinned = Sublist.trans i.thinned (sublist-append_left i.taken (v ∷ []));
      sent_events = i.sent_events;
      held_events = i.held_events;
    }

    -- It is taken and its event is kept.
    pub take_event :
        (e : Event) → decode v ≡ some e → InOrder posted queued sent (in_hand ++ e ∷ [])
    take_event e h = record {
      taken = i.taken ++ v ∷ [];
      delivered = i.delivered;
      held_items = i.held_items ++ v ∷ [];
      parts = i.parts ∙ sym (append_assoc i.taken (v ∷ []) queued);
      thinned =
          rw (sym (append_assoc i.delivered i.held_items (v ∷ [])))
            (Sublist.append i.thinned (Sublist.refl (v ∷ [])));
      sent_events = i.sent_events;
      held_events = Decodes-append i.held_items (v ∷ []) in_hand (e ∷ []) i.held_events (h, tt);
    }
