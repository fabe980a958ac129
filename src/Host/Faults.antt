-- ===== src/Host/Faults.antt =====
-- What the connections of a server let through: a request is handled at most as often as it came before the
-- server was killed, and each reply is that of a request that was handled; a reliable server answers all.
use mathlib.Core.Path.{subst}
use distributed_systems_engi.Base.{
  sym, ◌&&◌, ltb, ◌%◌, ℕ, zero, suc, ◌+◌, ◌≤◌, ◌≡◌, refl, Bool, true, false, some, List, [], ◌∷◌,
  if◌then◌else◌, arith, Bool-cases, Option-cases, inl, inr,
}
use distributed_systems_engi.Host.{
  Host, Arrival, Event, arrives, handled, killed, made_unreliable, Service, Open, kill,
  set_unreliable, pass, after_pass, serve_conn, take_open, run, handle_all, asked, tally, Part,
  empty, keep, drop,
}

-- How many open connections have a request that passes a test
abbrev pub open_tally : {Q : Type 0} → (Q → Bool) → List (Open Q) → ℕ
open_tally p os = tally (λ o. p o.request) os

pub take_open-tally :
    {Q : Type 0} (p : Q → Bool) (k : ℕ) (os : List (Open Q)) (o : Open Q) (os' : List (Open Q))
    → take_open k os ≡ some (o, os')
    → open_tally p os ≡ (if p o.request then open_tally p os' + 1 else open_tally p os')
unfolding take_open tally
take_open-tally p k [] o os' e = cc
take_open-tally p zero (x ∷ os) o os' e = ground (arith, e)
take_open-tally p (suc k) (x ∷ os) o os' e = elim (Option-cases (take_open k os)) [
  | inl out ↦ absurd (ground (arith, e, out))
  | inr ((y, ys), found) ↦ ground (arith, e, found, take_open-tally p k os y ys found)
]

dead-pass :
    {Q : Type 0} (a : Arrival) (q : Q) (h : Host) (os : List (Open Q))
    → h.dead ≡ true
    → (after_pass (pass a h) h ≡ h) × (serve_conn (pass a h) q os ≡ os)
unfolding pass after_pass serve_conn
dead-pass a q h os d = elim (Bool-cases a.conn) [
  | inl c ↦ rw (c, d) (refl, refl)
  | inr c ↦ rw (c, d) (refl, refl)
]

-- A pass of the loop of a server that is not dead
data AlivePass {Q : Type 0} (a : Arrival) (q : Q) (h : Host) (os : List (Open Q)) : Type 0 where
  fails :
      a.conn ≡ false
      → (after_pass (pass a h) h).dead ≡ true
      → serve_conn (pass a h) q os ≡ os
      → AlivePass a q h os
  drops :
      a.conn ≡ true
      → after_pass (pass a h) h ≡ h
      → serve_conn (pass a h) q os ≡ os
      → AlivePass a q h os
  serves :
      (b : Bool)
      → a.conn ≡ true
      → after_pass (pass a h) h ≡ h
      → serve_conn (pass a h) q os ≡ record { request = q; replies = b } ∷ os
      → AlivePass a q h os

alive_pass :
    {Q : Type 0} (a : Arrival) (q : Q) (h : Host) (os : List (Open Q))
    → h.dead ≡ false
    → AlivePass a q h os
unfolding pass after_pass serve_conn kill
alive_pass a q h os d = elim (Bool-cases a.conn) [
  | inr c ↦ fails c (rw (c, d) refl) (rw c refl)
  | inl c ↦ elim (Bool-cases (h.unreliable && ltb (a.draw % 1000) 100)) [
    | inl dropped ↦ drops c (rw (c, d, dropped) refl) (rw (c, d, dropped) refl)
    | inr kept ↦ elim (Bool-cases (h.unreliable && ltb (a.draw' % 1000) 200)) [
      | inl mute ↦ serves false c (rw (c, d, kept, mute) refl) (rw (c, d, kept, mute) refl)
      | inr clear ↦ serves true c (rw (c, d, kept, clear) refl) (rw (c, d, kept, clear) refl)
    ]
  ]
]

pub flags_and_open :
    {Q : Type 0} {h h' : Host} {os os' : List (Open Q)}
    → h ≡ h'
    → os ≡ os'
    → ◌≡◌ {A = Host × List (Open Q)} (h, os) (h', os')
flags_and_open e f = cc

module _ {Q R S : Type 0} (sv : Service Q R S) where
  -- The server has handled some requests, one after the other, no one of which more often than the list
  -- or the open connections have it, and has sent some of the replies.
  pub record Served (qs0 : List Q) (os : List (Open Q)) (s : S) (os' : List (Open Q)) (s' : S)
      (rs : List R) : Type 0 where
    pub qs : List Q
    pub state : s' ≡ (handle_all sv qs s).0
    pub replies : Part rs (handle_all sv qs s).1
    pub each : (p : Q → Bool) → tally p qs + open_tally p os' ≤ tally p qs0 + open_tally p os

  -- How a run ends, from any open connections and any state
  abbrev Serves : List Q → List (Event Q) → Host → Type 0
  Serves qs0 es h =
      (os : List (Open Q)) (s : S)
      → let (h', os', s', rs) = run sv es h os s in Served qs0 os s os' s' rs

  Serves-handled :
      (qs0 : List Q) (es : List (Event Q)) (h : Host) (k : ℕ)
      → Serves qs0 es h
      → Serves qs0 (handled k ∷ es) h
  unfolding run handle_all tally
  Serves-handled qs0 es h k rest os s = elim (Option-cases (take_open k os)) [
    | inl out ↦ rw (out, run) (rest os s)
    | inr ((o, os1), found) ↦
        let (s', r) = sv.handle o.request s in
        let (h'', os'', s'', rs) = run sv es h os1 s' in
        let later = rest os1 s' in
        rw (found, run)
          (record {
            qs = o.request ∷ later.qs;
            state = later.state;
            replies = reply o.replies later.replies;
            each = λ p. ground (arith, later.each p, take_open-tally p k os o os1 found);
          })
  ]
    where
      reply :
          {r : R} {rs all : List R} (b : Bool)
          → Part rs all
          → Part (if b then r ∷ rs else rs) (r ∷ all)
      reply true h = keep h
      reply false h = drop h

  -- The rest of a run after a pass that left the flags and the open connections so
  Serves-at :
      (qs0 : List Q) (es : List (Event Q)) (h h1 : Host) (os os1 os0 : List (Open Q)) (s : S)
      → h1 ≡ h
      → os1 ≡ os
      → (let (h', os', s', rs) = run sv es h os s in Served qs0 os0 s os' s' rs)
      → (let (h', os', s', rs) = run sv es h1 os1 s in Served qs0 os0 s os' s' rs)
  Serves-at qs0 es h h1 os os1 os0 s eh eos served =
      subst
        (λ x.
          Served qs0 os0 s (run sv es x.0 x.1 s).1 (run sv es x.0 x.1 s).2 (run sv es x.0 x.1 s).3)
        (flags_and_open (sym eh) (sym eos)) served

  Served-shift :
      {qs0 qs1 : List Q} {os os1 os' : List (Open Q)} {s s' : S} {rs : List R}
      → ((p : Q → Bool) → tally p qs0 + open_tally p os ≤ tally p qs1 + open_tally p os1)
      → Served qs0 os s os' s' rs
      → Served qs1 os1 s os' s' rs
  Served-shift le h = record {
    qs = h.qs;
    state = h.state;
    replies = h.replies;
    each = λ p. omega (arith, le p, h.each p);
  }

  -- A dead server takes no connection, and its threads go on.
  run-dead : (es : List (Event Q)) (h : Host) → h.dead ≡ true → Serves [] es h
  unfolding run kill set_unreliable serve_conn tally handle_all
  run-dead [] h d os s = record { qs = []; state = refl; replies = empty; each = λ p. omega arith }
  run-dead (killed ∷ es) h d os s = run-dead es (kill h) refl os s
  run-dead (made_unreliable what ∷ es) h d os s = run-dead es (set_unreliable what h) d os s
  run-dead (handled k ∷ es) h d os s = Serves-handled [] es h k (run-dead es h d) os s
  run-dead (arrives a q ∷ es) h d os s =
      let (same, shut) = dead-pass a q h os d in
      Serves-at [] es h (after_pass (pass a h) h) os (serve_conn (pass a h) q os) os s same shut
        (run-dead es h d os s)

  -- Whatever connections come, are dropped or lose their reply, whenever the server is killed, and in
  -- whatever order the threads of the connections run: the state of the server is that of handling some
  -- requests one after the other, the replies that it sends are some of the replies of these, in order,
  -- and no request is handled more often than it came before the server was killed.
  pub run-served : (es : List (Event Q)) (h : Host) → Serves (asked es) es h
  unfolding run kill set_unreliable serve_conn tally handle_all asked
  run-served [] h os s = record { qs = []; state = refl; replies = empty; each = λ p. omega arith }
  run-served (killed ∷ es) h os s = run-dead es (kill h) refl os s
  run-served (made_unreliable what ∷ es) h os s = run-served es (set_unreliable what h) os s
  run-served (handled k ∷ es) h os s = Serves-handled (asked es) es h k (run-served es h) os s
  run-served (arrives a q ∷ es) h os s = elim (Bool-cases h.dead) [
    | inl dead ↦ Served-shift (λ p. omega arith) (run-dead (arrives a q ∷ es) h dead os s)
    | inr alive ↦ elim (alive_pass a q h os alive) [
      | fails c dies shut ↦
          Serves-at _ es (after_pass (pass a h) h) (after_pass (pass a h) h) os
            (serve_conn (pass a h) q os) os s refl shut
            (Served-shift (λ p. omega arith) (run-dead es (after_pass (pass a h) h) dies os s))
      | drops c same shut ↦
          Serves-at _ es h (after_pass (pass a h) h) os (serve_conn (pass a h) q os) os s same shut
            (rw c (Served-shift (λ p. ground arith) (run-served es h os s)))
      | serves b c same opens ↦
          let o : Open Q = record { request = q; replies = b } in
          Serves-at _ es h (after_pass (pass a h) h) (o ∷ os) (serve_conn (pass a h) q os) os s same
            opens (rw c (Served-shift (λ p. ground arith) (run-served es h (o ∷ os) s)))
    ]
  ]
