-- ===== src/Perftest/Session/Single.antt =====
-- examples/perftest.cc with one task on each side: `client` and `server` both come to their end.
use ucxpp.Base.{
  ℕ, ◌+◌, ◌-◌, ◌*◌, ◌^◌, ◌≤◌, ◌<◌, ◌≡◌, refl, List, [], ◌∷◌, Bool, true, false, inl, inr, ltb,
  ltb→lt, ltb→le, if◌then◌else◌, Bool-cases, length, arith,
}
use ucxpp.Perftest.Session.{
  finished, Session, Move, sends, receives, begins, session_move, session_run, session_new,
}
use ucxpp.Perftest.Session.Side.{Single, warm_called, Single-bound, Single-waiting, Single-step}

-- Rounds in each of which both sides get a chance, once each: the one first or the other.
abbrev pub rounds : List Bool → List Move
rounds [] = []
rounds (true ∷ bs) = sends 0 ∷ receives 0 ∷ rounds bs
rounds (false ∷ bs) = receives 0 ∷ sends 0 ∷ rounds bs

module _ (W N : ℕ) where
  module _ (W_fits : W < 2 ^ 64) (N_fits : N < 2 ^ 64) where
    -- Both sides, and the messages under way.
    record Linked (s : Session) : Type 0 where
      client_left : ℕ
      client_ended : ℕ
      client_waits : ℕ
      at_client : Single W N s.client client_left client_ended client_waits
      server_left : ℕ
      server_ended : ℕ
      server_waits : ℕ
      at_server : Single W N s.server server_left server_ended server_waits
      conserved : s.under_way + server_ended ≡ client_ended + client_waits

    sends-Linked :
        (s : Session) (v : Linked s)
        → (v' : Linked (session_move 1 W N (sends 0) s)) × (v'.client_left ≡ v.client_left - 1)
          × (v'.server_left ≡ v.server_left)
    unfolding session_move
    sends-Linked s v =
        let (q', at, one) = Single-step W N W_fits N_fits _ _ _ v.at_client in
        (
          record {
            client_left = v.client_left - 1;
            client_ended = v.client_ended + v.client_waits;
            client_waits = q';
            at_client = at;
            server_left = v.server_left;
            server_ended = v.server_ended;
            server_waits = v.server_waits;
            at_server = v.at_server;
            conserved = added (begins 1 W N 0 s.client) one;
          },
          refl,
          refl,
        )
      where
        added :
            {q' : ℕ} (b : Bool)
            → (if b then 1 else 0) ≡ q'
            → (if b then s.under_way + 1 else s.under_way) + v.server_ended
              ≡ v.client_ended + v.client_waits + q'
        added true one = omega (arith, v.conserved)
        added false one = omega (arith, v.conserved)

    receives-Linked :
        (s : Session) (v : Linked s)
        → (v' : Linked (session_move 1 W N (receives 0) s)) × (v'.client_left ≡ v.client_left)
          × (v'.server_left ≤ v.server_left)
          × (v.client_left ≡ 0 → v'.server_left ≡ v.server_left - 1)
    unfolding session_move
    receives-Linked s v =
        let one = Single-waiting W N _ _ _ v.at_server in
        let of_client = Single-bound W N _ _ _ v.at_client in
        let of_server = Single-bound W N _ _ _ v.at_server in
        rw one (elim (Bool-cases (ltb s.under_way v.server_waits)) [
          | inl blocked ↦ rw blocked (
            v,
            refl,
            omega arith,
            λ z. absurd (
                omega (
                  arith,
                  ltb→lt s.under_way v.server_waits blocked,
                  of_client.1 z,
                  of_server.0,
                  v.conserved,
                )),
          )
          | inr free ↦
              let (q', at, _) = Single-step W N W_fits N_fits _ _ _ v.at_server in
              rw free (
                record {
                  client_left = v.client_left;
                  client_ended = v.client_ended;
                  client_waits = v.client_waits;
                  at_client = v.at_client;
                  server_left = v.server_left - 1;
                  server_ended = v.server_ended + v.server_waits;
                  server_waits = q';
                  at_server = at;
                  conserved = omega (arith, ltb→le s.under_way v.server_waits free, v.conserved);
                },
                refl,
                omega arith,
                λ z. refl,
              )
        ])

    abbrev left : {s : Session} → Linked s → ℕ
    left v = v.client_left + v.server_left

    rounds-Linked :
        (bs : List Bool) (s : Session) (v : Linked s)
        → (v' : Linked (session_run 1 W N (rounds bs) s)) × (left v' ≤ left v - length bs)
    unfolding session_run
    rounds-Linked [] s v = (v, omega arith)
    rounds-Linked (true ∷ bs) s v =
        let (v1, c1, s1) = sends-Linked s v in
        let (v2, c2, s2, d2) = receives-Linked _ v1 in
        let (v3, l3) = rounds-Linked bs _ v2 in (v3, grind (arith, c1, s1, c2, s2, d2, l3))
    rounds-Linked (false ∷ bs) s v =
        let (v1, c1, s1, d1) = receives-Linked s v in
        let (v2, c2, s2) = sends-Linked _ v1 in
        let (v3, l3) = rounds-Linked bs _ v2 in (v3, grind (arith, c1, s1, d1, c2, s2, l3))

    start : Linked (session_new 1 W N)
    unfolding session_new
    start = record {
      client_left = W + N + 2;
      client_ended = 0;
      client_waits = 0;
      at_client = warm_called _ _ _ refl refl refl;
      server_left = W + N + 2;
      server_ended = 0;
      server_waits = 0;
      at_server = warm_called _ _ _ refl refl refl;
      conserved = refl;
    }

    -- With one task on each side, `client` and `server` both come to their end and no message is
    -- left, after as many rounds as twice the number of messages in both parts and four more, in
    -- each of which each side gets one chance to go on, the one first or the other; the numbers of
    -- messages fit in 64 bits.
    pub session-finishes :
        (bs : List Bool)
        → 2 * (W + N) + 4 ≤ length bs
        → let s = session_run 1 W N (rounds bs) (session_new 1 W N) in
          (s.client.stage ≡ finished) × (s.server.stage ≡ finished) × (s.under_way ≡ 0)
    unfolding session_new start
    session-finishes bs enough =
        let (v, l) = rounds-Linked bs _ start in
        let of_client = (Single-bound W N _ _ _ v.at_client).1 (omega (arith, l)) in
        let of_server = (Single-bound W N _ _ _ v.at_server).1 (omega (arith, l)) in
        (
          of_client.2,
          of_server.2,
          omega (arith, of_client.0, of_client.1, of_server.0, v.conserved),
        )
