-- ===== src/ControlPlane/Nodes/Laws.antt =====
-- The key that a node's id is bound to.
use circuit_agent_cloud.Prelude.{
  ℕ, ◌≡◌, ◌≢◌, subst, ap, sym, inl, inr, true, not, ◌||◌, String, ◌==◌, List, Option, none, some,
  lookup, insert, lookup-insert, arith, Bool-cases, Option-cases, eq_iff,
}
use circuit_agent_cloud.ControlPlane.State.{up, Node, Cloud}
use circuit_agent_cloud.ControlPlane.Quota.{may_act_as}
use circuit_agent_cloud.ControlPlane.Heartbeat.{not_your_node, Custody, heartbeat}
use circuit_agent_cloud.ControlPlane.Nodes.{
  forbidden, Registration, register, registered, bind_key, key_of,
}

-- The id is on record with this key.
abbrev pub Bound : String → String → Cloud → Type 0
Bound id key c = (n : Node) × (lookup id c.nodes ≡ some n) × (n.pubkey ≡ some key)

pub Bound-same :
    (id key : String) (c c' : Cloud) → c'.nodes ≡ c.nodes → Bound id key c → Bound id key c'
Bound-same id key c c' e (n, found, bound) = (n, ground (arith, found, e), bound)

-- A node put on record under an id keeps the other bindings, and its own if it carries the key.
pub insert-Bound :
    (node id key : String) (m : Node) (c c' : Cloud)
    → c'.nodes ≡ insert node m c.nodes
    → ((node == id) ≡ true → m.pubkey ≡ some key)
    → Bound id key c
    → Bound id key c'
insert-Bound node id key m c c' e own (n, found, bound) = elim (Bool-cases (node == id)) [
  | inl same ↦ (m, ground (arith, e, lookup-insert node id m c.nodes), own same)
  | inr other ↦ (n, ground (arith, e, found, lookup-insert node id m c.nodes), bound)
]

-- What registration and heartbeats ask of a caller who meets a bound id.
registered-key :
    (now : ℕ) (caller : Option String) (r : Registration) (n : Node) (key : String)
    → n.pubkey ≡ some key
    → may_act_as n.pubkey caller ≡ true
    → (registered now caller r (some n)).pubkey ≡ some key
unfolding registered may_act_as bind_key
registered-key now none r n key bound may = bound
registered-key now (some k) r n key bound may = ground (arith, bound, may, eq_iff key k)

-- The record that stands under an equal id.
pub found_there :
    (node id : String) (c : Cloud) (n : Node)
    → (node == id) ≡ true
    → lookup id c.nodes ≡ some n
    → lookup node c.nodes ≡ some n
found_there node id c n same found =
    subst (λ (x : String). lookup x c.nodes ≡ some n) (sym ((eq_iff node id).0 same)) found

pub register-Bound :
    (now : ℕ) (caller : Option String) (r : Registration) (id key : String) (c : Cloud)
    → Bound id key c
    → Bound id key (register now caller r c).0
unfolding register
register-Bound now caller r id key c (n, found, bound) =
    let on_file : Option Node = lookup r.node_id c.nodes in
    let m : Node = registered now caller r on_file in
    let c' : Cloud = (register now caller r c).0 in
    elim (Bool-cases (r.node_id == "" || not (may_act_as (key_of on_file) caller))) [
      | inl refused ↦ Bound-same id key c c' (ground arith) (n, found, bound)
      | inr may ↦
          insert-Bound r.node_id id key m c c' (ground arith)
            (λ same.
              let there = found_there r.node_id id c n same found in
              let own : m ≡ registered now caller r (some n) = ap (registered now caller r) there in
              ground (arith, own, there, may, registered-key now caller r n key bound))
            (n, found, bound)
    ]

pub heartbeat-Bound :
    (cu : Custody) (now : ℕ) (caller : Option String) (node : String) (running_ids : List String)
    (id key : String) (c : Cloud)
    → Bound id key c
    → Bound id key (heartbeat cu now caller node running_ids c).0
unfolding heartbeat
heartbeat-Bound cu now caller node running_ids id key c (n, found, bound) =
    let c' : Cloud = (heartbeat cu now caller node running_ids c).0 in
    elim (Option-cases (lookup node c.nodes)) [
      | inl missing ↦ Bound-same id key c c' (ground arith) (n, found, bound)
      | inr (m, there) ↦ elim (Bool-cases (may_act_as m.pubkey caller)) [
        | inr stranger ↦ Bound-same id key c c' (ground arith) (n, found, bound)
        | inl may ↦
            insert-Bound node id key (record m { status = up; last_seen = now }) c c' (ground arith)
              (λ same. ground (arith, there, bound, found_there node id c n same found))
              (n, found, bound)
      ]
    ]

-- A caller with another verified key is turned away.
pub stranger_turned_away :
    (cu : Custody) (now : ℕ) (id key other : String) (r : Registration) (running_ids : List String)
    (c : Cloud)
    → Bound id key c
    → r.node_id ≡ id
    → id ≢ ""
    → other ≢ key
    → (register now (some other) r c ≡ (c, forbidden))
      × (heartbeat cu now (some other) id running_ids c ≡ (c, not_your_node))
unfolding register heartbeat may_act_as
stranger_turned_away cu now id key other r running_ids c (n, found, bound) same named strange = (
  ground (
    arith,
    same,
    found,
    bound,
    named,
    eq_iff id "",
    eq_iff r.node_id "",
    eq_iff key other,
    strange,
  ),
  ground (arith, found, bound, eq_iff key other, strange),
)
