-- ===== src/KvPaxos/Delivery.antt =====
-- The changes that a client of src/kvpaxos/client.go makes, and the log in which its tries arrive.
use mathlib.Core.Path.{subst}
use distributed_systems_engi.Base.{
  sym, Bool-cases, inl, inr, if◌then◌else◌, ℕ, zero, suc, ◌≡◌, refl, ap, ◌∙◌, String, true, false,
  some, List, [], ◌∷◌, arith, ℤ, pos, negsuc, ◌+ℤ◌, ltb_ℤ, ◌==◌, int_eq, string_eq, get_elem?, map,
  ==-iff,
}
use distributed_systems_engi.KvPaxos.{Op, start_server, PutAppendArgs}
use distributed_systems_engi.KvPaxos.Record.{
  serve, first_requests, apply_all, serve-exactly_once, seen, Request,
}
use distributed_systems_engi.KvPaxos.Clerk.{Clerk, make_clerk, next_request, put_append_args}

-- The operation that a server makes of the arguments of `PutAppend`
abbrev op_of : PutAppendArgs → Op
op_of args = record {
  type = args.op;
  key = args.key;
  value = args.value;
  client_id = args.client_id;
  req_num = args.req_num;
}

-- A change that a program asks of a client
pub record Change : Type 0 where
  pub key : String
  pub value : String
  pub op : String

-- The operations that the calls of `PutAppend` for some changes, one after the other, send
unfoldable pub sent : List Change → Clerk → List Op
sent [] ck = []
sent (c ∷ cs) ck =
    let ck' = next_request ck in op_of (put_append_args c.key c.value c.op ck') ∷ sent cs ck'

-- The log, where each of the operations reaches it in order, and any of those that did may do so
-- again at any time later: a try whose reply was lost, or that came late.
pub data Delivered : List Op → List Op → List Op → Type 0 where
  done : {earlier : List Op} → Delivered earlier [] []
  fresh :
      {earlier ops log : List Op} (op : Op)
      → Delivered (op ∷ earlier) ops log
      → Delivered earlier (op ∷ ops) (op ∷ log)
  copy :
      {earlier ops log : List Op} (op : Op) (i : ℕ)
      → get_elem? earlier i ≡ some op
      → Delivered earlier ops log
      → Delivered earlier ops (op ∷ log)

abbrev request : Op → Request
request op = (op.client_id, op.req_num)

seen-map :
    (earlier : List Op) (i : ℕ) (op : Op)
    → get_elem? earlier i ≡ some op
    → seen op.client_id op.req_num (map request earlier) ≡ true
unfolding seen
seen-map [] i op e = cc
seen-map (o ∷ earlier) zero op e =
    let same : o ≡ op = cc e in
    let c = (==-iff o.client_id op.client_id).1 (ap (λ x. x.client_id) same) in
    let r = (==-iff o.req_num op.req_num).1 (ap (λ x. x.req_num) same) in ground (arith, c, r)
seen-map (o ∷ earlier) (suc i) op e = ground (arith, seen-map earlier i op e)

next-lt : (a r : ℤ) → ltb_ℤ (a +ℤ pos 1) r ≡ true → ltb_ℤ a r ≡ true
next-lt (pos m) (pos n) h = ground (arith, h)
next-lt (pos m) (negsuc n) h = ground (arith, h)
next-lt (negsuc m) (pos n) h = ground (arith, h)
next-lt (negsuc zero) (negsuc n) h = ground (arith, h)
next-lt (negsuc (suc m)) (negsuc n) h = ground (arith, h)

lt-next : (a : ℤ) → ltb_ℤ a (a +ℤ pos 1) ≡ true
lt-next (pos m) = ground arith
lt-next (negsuc zero) = ground arith
lt-next (negsuc (suc m)) = ground arith

lt-ne : (a r : ℤ) → ltb_ℤ a r ≡ true → (a == r) ≡ false
lt-ne a r h = ground (arith, h)

delivered-first :
    (earlier ops log : List Op) (cs : List Change) (ck : Clerk)
    → Delivered earlier ops log
    → ops ≡ sent cs ck
    → ((r : ℤ) → ltb_ℤ ck.req_num r ≡ true → seen ck.client_id r (map request earlier) ≡ false)
    → first_requests (map request earlier) log ≡ ops
unfolding first_requests sent
delivered-first earlier _ _ cs ck done e h = refl
delivered-first earlier _ _ [] ck (fresh op d) e h = cc e
delivered-first earlier _ _ (c ∷ cs) ck (fresh {ops = ops} {log = log} op d) e h =
    let ck' = next_request ck in
    let head : op ≡ op_of (put_append_args c.key c.value c.op ck') = cc e in
    let tail : ops ≡ sent cs ck' = cc e in
    let id = ap (λ x. x.client_id) head in
    let num = ap (λ x. x.req_num) head in
    let new : seen op.client_id op.req_num (map request earlier) ≡ false =
      rw (id, num) (h (ck.req_num +ℤ pos 1) (lt-next ck.req_num)) in
    let rest = delivered-first (op ∷ earlier) ops log cs ck' d tail (λ r lt.
      unfold seen in
      ground (
        arith,
        lt-ne (ck.req_num +ℤ pos 1) r lt,
        ap (λ x. x == r) num,
        h r (next-lt ck.req_num r lt),
      )) in
    ground (arith, new, rest)
delivered-first earlier _ _ cs ck (copy {ops = ops} {log = log} op i at d) e h =
    let rest = delivered-first earlier ops log cs ck d e h in
    ground (arith, seen-map earlier i op at, rest)

-- The operations of a client in a log
unfoldable pub of_client : ℤ → List Op → List Op
of_client id [] = []
of_client id (op ∷ ops) =
    let rest = of_client id ops in if op.client_id == id then op ∷ rest else rest

seen-cons :
    (id r : ℤ) (op : Op) (qs rs : List Request)
    → seen id r qs ≡ seen id r rs
    → seen id r ((op.client_id, op.req_num) ∷ qs) ≡ seen id r ((op.client_id, op.req_num) ∷ rs)
unfolding seen
seen-cons id r op qs rs h = ground (arith, h)

seen-other :
    (id r : ℤ) (op : Op) (qs : List Request)
    → (op.client_id == id) ≡ false
    → seen id r ((op.client_id, op.req_num) ∷ qs) ≡ seen id r qs
unfolding seen
seen-other id r op qs h = ground (arith, h)

-- Which of a client's operations are first does not depend on the other clients.
of_client-first_requests :
    (id : ℤ) (qs rs : List Request) (log : List Op)
    → ((r : ℤ) → seen id r qs ≡ seen id r rs)
    → of_client id (first_requests qs log) ≡ first_requests rs (of_client id log)
unfolding of_client first_requests
of_client-first_requests id qs rs [] h = refl
of_client-first_requests id qs rs (op ∷ log) h = elim (Bool-cases (op.client_id == id)) [
  | inl mine ↦
      let same : seen op.client_id op.req_num qs ≡ seen op.client_id op.req_num rs =
        subst (λ c. seen c op.req_num qs ≡ seen c op.req_num rs)
          (sym ((==-iff op.client_id id).0 mine)) (h op.req_num) in
      let again = of_client-first_requests id qs rs log h in
      let fresh' =
        of_client-first_requests id ((op.client_id, op.req_num) ∷ qs)
          ((op.client_id, op.req_num) ∷ rs) log (λ r. seen-cons id r op qs rs (h r)) in
      elim (Bool-cases (seen op.client_id op.req_num qs)) [
        | inl old ↦ ground (arith, mine, same, old, again)
        | inr new ↦ ground (arith, mine, same, new, fresh')
      ]
  | inr other ↦
      let again = of_client-first_requests id qs rs log h in
      let fresh' =
        of_client-first_requests id ((op.client_id, op.req_num) ∷ qs) rs log
          (λ r. seen-other id r op qs other ∙ h r) in
      elim (Bool-cases (seen op.client_id op.req_num qs)) [
        | inl old ↦ ground (arith, other, old, again)
        | inr new ↦ ground (arith, other, new, fresh')
      ]
]

-- Many clients at once: where each change of a client reached the log once or more, in order and with
-- any of its operations again later, whatever else is in the log, a server that serves the log has the
-- data that the first operation of each request makes, and among those the operations of the client are
-- its changes, each once and in order.
pub clients-once :
    (cs : List Change) (servers : List String) (id : ℤ) (log : List Op)
    → Delivered [] (sent cs (make_clerk servers id)) (of_client id log)
    → ((serve log start_server).store ≡ apply_all (first_requests [] log) [])
      × (of_client id (first_requests [] log) ≡ sent cs (make_clerk servers id))
clients-once cs servers id log d =
    let ck = make_clerk servers id in
    (
      serve-exactly_once log,
      of_client-first_requests id [] [] log (λ r. refl)
          ∙ delivered-first [] (sent cs ck) (of_client id log) cs ck d refl
              (λ r lt. unfold seen in refl),
    )
