-- ===== src/Lambda/Answered.antt =====
-- aws/lambda/events.go: what `HandleBatch` has gone through when it answers without an error.
use passwd_pot.Common.{ℕ, List, [], ok, ◌≡◌, refl, sym, ap, ◌∙◌, Result-cases, inl, inr}
use passwd_pot.Api.{Event, BatchEventResponse}
use passwd_pot.Cache.{ConcurrentMap}
use passwd_pot.Resolver.{World}
use passwd_pot.Recorder.{record_batch_events}
use passwd_pot.Recorder.Batch.{all_steps, record_batch_events-Explains}
use passwd_pot.Lambda.{
  Backend, BatchEvent, Loop, gateway_addr, resolve_addr, assign, store_batch, run_batch,
}

abbrev pub no_ids : Loop
no_ids = record { geo_ids = []; id = 0 }

module _ (cm : ConcurrentMap) (b : Backend) (batch : BatchEvent) (w : World cm) where
  -- What a batch has gone through that is answered by a response: the resolving of the origin, the
  -- loop that gives the rows, and the storing of these rows, of which the database has done all steps.
  pub record Answered (response : BatchEventResponse) : Type 0 where
    pub gid : ℕ
    pub w1 : World cm
    pub rows : List Event
    pub l : Loop
    pub w2 : World cm
    pub origin : resolve_addr cm b.env (gateway_addr batch.origin_addr) w ≡ (ok gid, w1)
    pub assigned :
        assign cm b.env (gateway_addr batch.origin_addr) gid batch.events no_ids w1
        ≡ (ok (rows, l), w2)
    pub after : (run_batch cm b batch w).1 ≡ w2
    pub result : (record_batch_events b.batches rows).result ≡ ok response
    pub steps : (record_batch_events b.batches rows).steps ≡ all_steps rows

  stored_result :
      (rows : List Event) (l : Loop) (response : BatchEventResponse)
      → store_batch cm b.batches (ok (rows, l)) ≡ ok response
      → (record_batch_events b.batches rows).result ≡ ok response
  unfolding store_batch
  stored_result rows l response e =
      elim (Result-cases (record_batch_events b.batches rows).result) [
        | inr (x, failed) ↦ absurd (let e' = rw (failed, store_batch) at e in cc)
        | inl (r, stored) ↦
            let e' = rw (stored, store_batch) at e in
            let same : r ≡ response = cc in stored ∙ ap ok same
      ]

  pub run_batch-Answered :
      (response : BatchEventResponse) → (run_batch cm b batch w).0 ≡ ok response → Answered response
  unfolding run_batch
  run_batch-Answered response e =
      let origin = gateway_addr batch.origin_addr in
      elim (Result-cases (resolve_addr cm b.env origin w).0) [
        | inr (x, failed) ↦ absurd (let e' = rw (failed, run_batch) at e in cc)
        | inl (gid, found) ↦
            let w1 = (resolve_addr cm b.env origin w).1 in
            let e1 = rw (found, run_batch) at e in
            let run = assign cm b.env origin gid batch.events no_ids w1 in
            elim (Result-cases run.0) [
              | inr (x, failed) ↦ absurd (let e2 = rw failed at e1 in unfold store_batch in cc)
              | inl ((rows, l), done) ↦
                  let e2 : store_batch cm b.batches (ok (rows, l)) ≡ ok response =
                    ap (store_batch cm b.batches) (sym done) ∙ e1 in
                  let stored = stored_result rows l response e2 in
                  record {
                    gid = gid;
                    w1 = w1;
                    rows = rows;
                    l = l;
                    w2 = run.1;
                    origin = λ k. (found k, w1);
                    assigned = λ k. (done k, run.1);
                    after = rw (found, run_batch) refl;
                    result = stored;
                    steps = (rw stored at (record_batch_events-Explains b.batches rows)).0;
                  }
            ]
      ]
