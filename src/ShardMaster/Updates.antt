-- ===== src/ShardMaster/Updates.antt =====
-- How the configs change in `UpdateConf` and `ExecOp` of src/shardmaster/server.go, and the rule by which
-- a property of the configs passes through them.
use mathlib.Core.Path.{subst}
use distributed_systems_engi.Base.{
  ℤ, ◌+ℤ◌, ◌&&◌, ℕ, zero, suc, ◌≡◌, refl, ap, inl, inr, true, some, List, [], ◌∷◌, ◌++◌, pos, ◌==◌,
  int_eq, string_eq, length, arith, insert, some-injective, Bool-cases, Option-cases,
}
use distributed_systems_engi.ShardMaster.{
  Config, Op, ShardMaster, Order, join_config, leave_config, move_config, latest, join_handle,
  leave_handle, move_handle, update_conf, catch_up, caught_up, exec_op, Pass, same_op, gap, returns,
  append_config,
}

-- What `UpdateConf` leaves as the configs: it adds what a handler makes of the latest, or nothing.
pub data Update (o : Order) (op : Op) (cs : List Config) : List Config → Type 0 where
  joins :
      (c : Config)
      → (op.type == "Join") ≡ true
      → latest cs ≡ some c
      → Update o op cs (cs ++ join_config o op (length cs) c ∷ [])
  leaves :
      (c d : Config)
      → (op.type == "Leave") ≡ true
      → latest cs ≡ some c
      → leave_config o op (length cs) c ≡ some d
      → Update o op cs (cs ++ d ∷ [])
  moves :
      (c : Config)
      → (op.type == "Move") ≡ true
      → latest cs ≡ some c
      → Update o op cs (cs ++ move_config op (length cs) c ∷ [])
  nothing : Update o op cs cs

pub latest-append : (cs : List Config) (c : Config) → latest (cs ++ c ∷ []) ≡ some c
unfolding latest
latest-append [] c = refl
latest-append (d ∷ []) c = refl
latest-append (d ∷ e ∷ cs) c = latest-append (e ∷ cs) c

join_handle-Update :
    (o : Order) (op : Op) (sm sm' : ShardMaster)
    → (op.type == "Join") ≡ true
    → join_handle o op sm ≡ some sm'
    → Update o op sm.configs sm'.configs
unfolding join_handle append_config
join_handle-Update o op sm sm' t e = elim (Option-cases (latest sm.configs)) [
  | inl none' ↦ absurd (ground (arith, e, none'))
  | inr (c, found) ↦
      let q : record sm { configs = sm.configs ++ join_config o op (length sm.configs) c ∷ [] }
          ≡ sm' =
        ground (arith, e, found) in
      subst (λ s. Update o op sm.configs s.configs) q (joins c t found)
]

leave_handle-Update :
    (o : Order) (op : Op) (sm sm' : ShardMaster)
    → (op.type == "Leave") ≡ true
    → leave_handle o op sm ≡ some sm'
    → Update o op sm.configs sm'.configs
unfolding leave_handle append_config
leave_handle-Update o op sm sm' t e = elim (Option-cases (latest sm.configs)) [
  | inl none' ↦ absurd (ground (arith, e, none'))
  | inr (c, found) ↦ elim (Option-cases (leave_config o op (length sm.configs) c)) [
    | inl panics' ↦ absurd (ground (arith, e, found, panics'))
    | inr (d, made) ↦
        let q : record sm { configs = sm.configs ++ d ∷ [] } ≡ sm' =
          ground (arith, e, found, made) in
        subst (λ s. Update o op sm.configs s.configs) q (leaves c d t found made)
  ]
]

move_handle-Update :
    (o : Order) (op : Op) (sm sm' : ShardMaster)
    → (op.type == "Move") ≡ true
    → move_handle op sm ≡ some sm'
    → Update o op sm.configs sm'.configs
unfolding move_handle append_config
move_handle-Update o op sm sm' t e = elim (Option-cases (latest sm.configs)) [
  | inl none' ↦ absurd (ground (arith, e, none'))
  | inr (c, found) ↦
      let q : record sm { configs = sm.configs ++ move_config op (length sm.configs) c ∷ [] }
          ≡ sm' =
        ground (arith, e, found) in
      subst (λ s. Update o op sm.configs s.configs) q (moves c t found)
]

pub update_conf-Update :
    (o : Order) (op : Op) (sm sm' : ShardMaster)
    → update_conf o op sm ≡ some sm'
    → Update o op sm.configs sm'.configs
unfolding update_conf
update_conf-Update o op sm sm' e = elim (Bool-cases (op.type == "Join")) [
  | inl is_join ↦ elim (Option-cases (join_handle o op sm)) [
    | inl failed ↦ absurd (ground (arith, e, is_join, failed))
    | inr (s, made) ↦
        let q : record s { rec_join = insert op.gid true s.rec_join } ≡ sm' =
          ground (arith, e, is_join, made) in
        subst (λ x. Update o op sm.configs x.configs) q (join_handle-Update o op sm s is_join made)
  ]
  | inr no_join ↦ elim (Bool-cases (op.type == "Leave")) [
    | inl is_leave ↦ elim (Option-cases (leave_handle o op sm)) [
      | inl failed ↦ absurd (ground (arith, e, no_join, is_leave, failed))
      | inr (s, made) ↦
          let q : record s { rec_leave = insert op.gid true s.rec_leave } ≡ sm' =
            ground (arith, e, no_join, is_leave, made) in
          subst (λ x. Update o op sm.configs x.configs) q
            (leave_handle-Update o op sm s is_leave made)
    ]
    | inr no_leave ↦ elim (Bool-cases (op.type == "Move")) [
      | inl is_move ↦
          move_handle-Update o op sm sm' is_move (ground (arith, e, no_join, no_leave, is_move))
      | inr no_move ↦
          let q : sm ≡ sm' = ground (arith, e, no_join, no_leave, no_move) in
          subst (λ x. Update o op sm.configs x.configs) q nothing
    ]
  ]
]

-- A property that each operation of the log keeps, `ExecOp` keeps.
module _ (P : List Config → Type 0) (log : ℤ → Op) (orders : ℤ → Order)
    (step : (i : ℤ) (cs cs' : List Config) → P cs → Update (orders i) (log i) cs cs' → P cs') where
  catch_up-keeps :
      (n : ℕ) (i : ℤ) (sm sm' : ShardMaster)
      → P sm.configs
      → catch_up log orders n i sm ≡ some sm'
      → P sm'.configs
  unfolding catch_up
  catch_up-keeps zero i sm sm' h e = subst P (ap (λ s. s.configs) (some-injective e)) h
  catch_up-keeps (suc n) i sm sm' h e = elim (Option-cases (update_conf (orders i) (log i) sm)) [
    | inl failed ↦ absurd (ground (arith, e, failed))
    | inr (s, made) ↦
        catch_up-keeps n (i +ℤ pos 1) s sm'
          (step i sm.configs s.configs h (update_conf-Update (orders i) (log i) sm s made))
          (ground (arith, e, made))
  ]

  pub exec_op-keeps :
      (args : Op) (ps : List Pass) (sm sm' : ShardMaster)
      → P sm.configs
      → exec_op log orders args ps sm ≡ returns sm'
      → P sm'.configs
  unfolding exec_op caught_up
  exec_op-keeps args [] sm sm' h e = cc
  exec_op-keeps args (p ∷ ps) sm sm' h e =
      elim (Bool-cases (p.is_decided && same_op (log p.ins) args)) [
        | inr other ↦ exec_op-keeps args ps sm sm' h (ground (arith, e, other))
        | inl own ↦
            elim (Option-cases
              (catch_up log orders (gap sm.min_ins p.ins) (sm.min_ins +ℤ pos 1) sm)) [
                | inl failed ↦ absurd (ground (arith, e, own, failed))
                | inr (s, done) ↦
                    let q : returns (record s { min_ins = p.ins }) ≡ returns sm' =
                      ground (arith, e, own, done) in
                    subst P (returned q)
                      (catch_up-keeps (gap sm.min_ins p.ins) (sm.min_ins +ℤ pos 1) sm s h done)
              ]
      ]
    where
      returned : {s s' : ShardMaster} → returns s ≡ returns s' → s.configs ≡ s'.configs
      returned e = cc
