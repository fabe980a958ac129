-- ===== src/KvPaxos/Record.antt =====
-- At most once: the record of requests in src/kvpaxos/server.go (`IsHit`, `UpdateRecord`, `UpdateData`).
use distributed_systems_engi.Base.{
  String, ◌≡◌, refl, ◌∙◌, ap, inl, inr, Bool, true, false, ◌&&◌, ◌||◌, Option, none, some, List, [],
  ◌∷◌, arith, ℤ, ◌==◌, int_eq, Map, or_zero, is_some, lookup, insert, lookup-insert, Bool-cases,
  eqb_ℤ_iff, if◌then◌else◌,
}
use distributed_systems_engi.KvPaxos.{
  Op, KvPaxos, start_server, is_hit, update_record, apply, update_data,
}

is_some-insert :
    (r q : ℤ) (m : Map ℤ Bool)
    → is_some (lookup r (insert q true m)) ≡ ((q == r) || is_some (lookup r m))
is_some-insert r q m = ground (arith, lookup-insert q r true m)

is_some-or_zero :
    (r : ℤ) (o : Option (Map ℤ Bool))
    → is_some (lookup r (or_zero [] o))
      ≡ elim o [ none ↦ false | some reqs ↦ is_some (lookup r reqs) ]
unfolding lookup
is_some-or_zero r none = refl
is_some-or_zero r (some m) = refl

-- After `UpdateRecord` the request of the operation counts as served, and no other is affected.
is_hit-update_record :
    (c r : ℤ) (op : Op) (kv : KvPaxos)
    → is_hit c r (update_record op kv) ≡ ((op.client_id == c && op.req_num == r) || is_hit c r kv)
unfolding is_hit update_record
is_hit-update_record c r op kv =
    let old = or_zero [] (lookup op.client_id kv.rec_op) in
    ground (
      arith,
      lookup-insert op.client_id c (insert op.req_num true old) kv.rec_op,
      is_some-insert r op.req_num old,
      is_some-or_zero r (lookup op.client_id kv.rec_op),
      eqb_ℤ_iff op.client_id c,
    )

pub is_hit-update_data :
    (c r : ℤ) (op : Op) (kv : KvPaxos)
    → is_hit c r (update_data op kv) ≡ ((op.client_id == c && op.req_num == r) || is_hit c r kv)
unfolding update_data is_hit
is_hit-update_data c r op kv = elim (Bool-cases (is_hit op.client_id op.req_num kv)) [
  | inl hit ↦ ground (arith, hit, eqb_ℤ_iff op.client_id c, eqb_ℤ_iff op.req_num r)
  | inr miss ↦ rw miss (is_hit-update_record c r op (record kv { store = apply op kv.store }))
]

update_data-hit :
    (op : Op) (kv : KvPaxos) → is_hit op.client_id op.req_num kv ≡ true → update_data op kv ≡ kv
unfolding update_data
update_data-hit op kv h = rw h

-- Serve a list of operations, in order.
unfoldable pub serve : List Op → KvPaxos → KvPaxos
serve [] kv = kv
serve (op ∷ ops) kv = serve ops (update_data op kv)

-- A request that was served stays served.
pub is_hit-serve :
    (c r : ℤ) (ops : List Op) (kv : KvPaxos)
    → is_hit c r kv ≡ true
    → is_hit c r (serve ops kv) ≡ true
unfolding serve
is_hit-serve c r [] kv h = h
is_hit-serve c r (op ∷ ops) kv h =
    is_hit-serve c r ops (update_data op kv) (ground (arith, is_hit-update_data c r op kv))

-- Serving an operation again changes nothing, whatever operations were served in between.
pub serve-again :
    (op : Op) (ops : List Op) (kv : KvPaxos)
    → update_data op (serve ops (update_data op kv)) ≡ serve ops (update_data op kv)
serve-again op ops kv = update_data-hit op (serve ops (update_data op kv)) (
    is_hit-serve op.client_id op.req_num ops (update_data op kv) (
      ground (
        arith,
        is_hit-update_data op.client_id op.req_num op kv,
        eqb_ℤ_iff op.client_id op.client_id,
        eqb_ℤ_iff op.req_num op.req_num,
      )))

-- The requests of a list of operations that are there for the first time, given those seen before.
abbrev pub Request : Type 0
Request = ℤ × ℤ

unfoldable pub seen : ℤ → ℤ → List Request → Bool
seen c r [] = false
seen c r (q ∷ qs) = (q.0 == c && q.1 == r) || seen c r qs

unfoldable pub first_requests : List Request → List Op → List Op
first_requests qs [] = []
first_requests qs (op ∷ ops) =
    if seen op.client_id op.req_num qs
    then first_requests qs ops
    else op ∷ first_requests ((op.client_id, op.req_num) ∷ qs) ops

unfoldable pub apply_all : List Op → Map String String → Map String String
apply_all [] m = m
apply_all (op ∷ ops) m = apply_all ops (apply op m)

store-update_data :
    (op : Op) (kv : KvPaxos)
    → is_hit op.client_id op.req_num kv ≡ false
    → (update_data op kv).store ≡ apply op kv.store
unfolding update_data update_record
store-update_data op kv h = rw h

serve-first :
    (qs : List Request) (ops : List Op) (kv : KvPaxos)
    → ((c r : ℤ) → is_hit c r kv ≡ seen c r qs)
    → (serve ops kv).store ≡ apply_all (first_requests qs ops) kv.store
unfolding serve apply_all first_requests
serve-first qs [] kv h = refl
serve-first qs (op ∷ ops) kv h = elim (Bool-cases (seen op.client_id op.req_num qs)) [
  | inl old ↦ rw old (
      ap (λ k. (serve ops k).store) (update_data-hit op kv (h op.client_id op.req_num ∙ old))
      ∙ serve-first qs ops kv h)
  | inr new ↦ rw new (
      serve-first ((op.client_id, op.req_num) ∷ qs) ops (update_data op kv)
        (λ c r. unfold seen in ground (arith, is_hit-update_data c r op kv, h c r))
      ∙ ap (apply_all (first_requests ((op.client_id, op.req_num) ∷ qs) ops))
          (store-update_data op kv (h op.client_id op.req_num ∙ new)))
]

-- Each request takes effect once: a server that has served nothing ends, after any operations, with
-- the data that the first operation of each request alone makes, in order.
pub serve-exactly_once :
    (ops : List Op) → (serve ops start_server).store ≡ apply_all (first_requests [] ops) []
serve-exactly_once ops = serve-first [] ops start_server (λ c r. unfold is_hit seen lookup in refl)
