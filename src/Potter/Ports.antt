-- ===== src/Potter/Ports.antt =====
-- cmd/potter.go: the ports that a user asks for.
use passwd_pot.Common.{
  ℤ, true, false, List, [], ◌∷◌, ◌++◌, ◌≡◌, ◌⊎◌, inl, inr, refl, arith, Bool-cases, All, ◌↔◌,
}
use passwd_pot.Common.Decimal.RoundTrip.{print}
use passwd_pot.Potter.{
  Pot, http, ftp, pop, psql, PotConfig, is_positive, get_port, Worker, get_worker, run_potter,
}

-- The port that is asked for a pot.
abbrev pub asked : PotConfig → Pot → ℤ
asked config http = config.http_port
asked config ftp = config.ftp_port
asked config pop = config.pop_port
asked config psql = config.psql_port

abbrev pub Started : Pot → List Worker → Type 0
Started p [] = ⊥
Started p (w ∷ ws) = (w.pot ≡ p) ⊎ Started p ws

-- A worker listens at the port that was asked for its pot.
abbrev pub AtAsked : PotConfig → Worker → Type 0
AtAsked config w = w.addr ≡ config.bind ++ (58 ∷ print (asked config w.pot))

-- Without the flag for all pots, every worker listens at the port that was asked for its pot; the
-- HTTP and FTP pots are started exactly if a positive port is asked for them; and the POP3 and
-- PostgreSQL pots are never started, whatever port is asked for them.
pub run_potter-some :
    (config : PotConfig)
    → config.all ≡ false
    → All (AtAsked config) (run_potter config)
      × (Started http (run_potter config) ↔ (is_positive config.http_port ≡ true))
      × (Started ftp (run_potter config) ↔ (is_positive config.ftp_port ≡ true))
      × ¬ (Started pop (run_potter config))
      × ¬ (Started psql (run_potter config))
unfolding run_potter get_worker get_port
run_potter-some config some_pots = elim (Bool-cases (is_positive config.http_port)) [
  | inl h ↦ elim (Bool-cases (is_positive config.ftp_port)) [
    | inl f ↦
        let workers : run_potter config
            ≡ get_worker config config.http_port http ∷ get_worker config config.ftp_port ftp ∷ [] =
          ground arith in
        rw workers (
          (refl, (refl, tt)),
          (λ s. h, λ t. inl refl),
          (λ s. f, λ t. inr (inl refl)),
          ground arith,
          ground arith,
        )
    | inr f ↦
        let workers : run_potter config ≡ get_worker config config.http_port http ∷ [] =
          ground arith in
        rw workers ((refl, tt), (λ s. h, λ t. inl refl), ground arith, ground arith, ground arith)
  ]
  | inr h ↦ elim (Bool-cases (is_positive config.ftp_port)) [
    | inl f ↦
        let workers : run_potter config ≡ get_worker config config.ftp_port ftp ∷ [] =
          ground arith in
        rw workers ((refl, tt), ground arith, (λ s. f, λ t. inl refl), ground arith, ground arith)
    | inr f ↦
        let workers : run_potter config ≡ [] = ground arith in
        rw workers (tt, ground arith, ground arith, (λ s. s), (λ s. s))
  ]
]
