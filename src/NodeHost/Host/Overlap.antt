-- ===== src/NodeHost/Host/Overlap.antt =====
-- What the operations of a host do to each other when they overlap.
use circuit_agent_cloud.Prelude.{
  ℕ, zero, suc, ◌≤◌, ◌<◌, ◌≡◌, refl, sym, ap, subst, ◌∙◌, inl, inr, true, false, String, ◌==◌, List,
  [], ◌∷◌, ◌++◌, Option, none, some, length, lookup, insert, erase, lookup-insert, lookup-erase,
  set, get_elem?, arith, Option-cases, eq_refl,
}
use circuit_agent_cloud.NodeHost.Resolve.{Site, Order, Command, command, resolve_workload}
use circuit_agent_cloud.NodeHost.Host.{
  Host, Rec, admits, finish_start, start_agent, stop_agent, launch_process, on_exit, report_exit,
  report_agent, close_sidecar, sidecar_of,
}
use circuit_agent_cloud.NodeHost.Host.Cycle.{IsReady}
use circuit_agent_cloud.NodeHost.Host.Keys.{stop_agent-agents}

length-insert_new :
    (id : String) (pid : ℕ) (agents : List (String × ℕ))
    → lookup id agents ≡ none
    → length (insert id pid agents) ≡ suc (length agents)
unfolding insert lookup
length-insert_new id pid [] fresh = refl
length-insert_new id pid ((k, old) ∷ rest) fresh =
    ground (arith, length-insert_new id pid rest, fresh)

finish_start-agents :
    (site : Site) (now : ℕ) (o : Order) (h : Host)
    → IsReady site o
    → (finish_start site now o h).agents ≡ insert o.id (length h.recs) h.agents
unfolding finish_start launch_process
finish_start-agents site now o h ready = let (c, comes) = ready h.cache in ground (arith, comes)

admits-parts :
    (site : Site) (o : Order) (h : Host)
    → admits site o h ≡ true
    → (lookup o.id h.agents ≡ none) × (suc (length h.agents) ≤ site.max_agents)
unfolding admits
admits-parts site o h ok = elim (Option-cases (lookup o.id h.agents)) [
  | inl fresh ↦ (fresh, ground (arith, fresh, ok))
  | inr (pid, found) ↦ absurd (ground (arith, found, ok))
]

-- Two starts of different agents whose workloads can be started, both let in before either of them
-- went on, bring the host over its budget if there was room for just one.
pub finish_start-overlaps :
    (site : Site) (now later : ℕ) (o o' : Order) (h : Host)
    → admits site o h ≡ true
    → admits site o' h ≡ true
    → (o.id == o'.id) ≡ false
    → IsReady site o
    → IsReady site o'
    → suc (length h.agents) ≡ site.max_agents
    → length (finish_start site later o' (finish_start site now o h)).agents ≡ suc site.max_agents
finish_start-overlaps site now later o o' h let_in let_in' distinct ready ready' full =
    let (fresh, room) = admits-parts site o h let_in in
    let (fresh', room') = admits-parts site o' h let_in' in
    let one : Host = finish_start site now o h in
    let first : one.agents ≡ insert o.id (length h.recs) h.agents =
      finish_start-agents site now o h ready in
    let absent : lookup o'.id one.agents ≡ none =
      subst (λ (xs : List (String × ℕ)). lookup o'.id xs ≡ none) (sym first)
        (ground (arith, distinct, fresh', lookup-insert o.id o'.id (length h.recs) h.agents)) in
    ap length (finish_start-agents site later o' one ready')
    ∙ length-insert_new o'.id (length one.recs) one.agents absent
    ∙ ap suc (ap length first ∙ length-insert_new o.id (length h.recs) h.agents fresh ∙ full)

get_elem-set :
    (xs : List Rec) (i j : ℕ) (v : Rec) → i < j → get_elem? (set xs i v) j ≡ get_elem? xs j
get_elem-set [] i j v h = refl
get_elem-set (x ∷ xs) zero zero v h = absurd (omega (arith, h))
get_elem-set (x ∷ xs) zero (suc j) v h = refl
get_elem-set (x ∷ xs) (suc i) zero v h = refl
get_elem-set (x ∷ xs) (suc i) (suc j) v h = get_elem-set xs i j v (omega (arith, h))

get_elem-append :
    (xs ys : List Rec) (i : ℕ) (r : Rec) → get_elem? xs i ≡ some r → get_elem? (xs ++ ys) i ≡ some r
get_elem-append [] ys i r h = absurd (ground (arith, h))
get_elem-append (x ∷ xs) ys zero r h = h
get_elem-append (x ∷ xs) ys (suc i) r h = get_elem-append xs ys i r h

get_elem-last : (xs : List Rec) (r : Rec) → get_elem? (xs ++ r ∷ []) (length xs) ≡ some r
get_elem-last [] r = refl
get_elem-last (x ∷ xs) r = get_elem-last xs r

get_elem-lt : (xs : List Rec) (i : ℕ) (r : Rec) → get_elem? xs i ≡ some r → i < length xs
get_elem-lt [] i r h = absurd (ground (arith, h))
get_elem-lt (x ∷ xs) zero r h = omega arith
get_elem-lt (x ∷ xs) (suc i) r h = omega (arith, get_elem-lt xs i r h)

stop_agent-recs : (id : String) (h : Host) → (stop_agent id h).recs ≡ h.recs
unfolding stop_agent close_sidecar
stop_agent-recs id h = ground arith

on_exit-agents :
    (now pid : ℕ) (code : Option ℕ) (h : Host) (r : Rec)
    → get_elem? h.recs pid ≡ some r
    → (on_exit now pid code h).agents ≡ erase r.agent h.agents
unfolding on_exit report_exit report_agent close_sidecar
on_exit-agents now pid code h r found = ground (arith, found)

on_exit-recs :
    (now pid : ℕ) (code : Option ℕ) (h : Host) (r : Rec)
    → get_elem? h.recs pid ≡ some r
    → (on_exit now pid code h).recs ≡ set h.recs pid (record r { alive = false })
unfolding on_exit report_exit report_agent close_sidecar
on_exit-recs now pid code h r found = ground (arith, found)

abbrev fresh_rec : ℕ → Order → Command → Rec
fresh_rec now o c = record {
  agent = o.id;
  runs = c;
  sidecar = sidecar_of c;
  log_buf = [];
  last_sent = 0;
  started_at = now;
  alive = true;
}

start_agent-recs :
    (site : Site) (now : ℕ) (o : Order) (h : Host) (c : Command)
    → lookup o.id h.agents ≡ none
    → suc (length h.agents) ≤ site.max_agents
    → (resolve_workload site o h.cache).1 ≡ command c
    → (start_agent site now o h).recs ≡ h.recs ++ fresh_rec now o c ∷ []
unfolding start_agent admits finish_start launch_process
start_agent-recs site now o h c fresh room ready = ground (arith, fresh, room, ready)

-- If an agent whose workload can be started is stopped and started again, within the budget,
-- before the exit of its old process is seen, that exit takes the agent off the map while its new
-- process lives.
pub on_exit-forgets :
    (site : Site) (now later : ℕ) (code : Option ℕ) (o : Order) (h : Host) (pid : ℕ) (r : Rec)
    → get_elem? h.recs pid ≡ some r
    → r.agent ≡ o.id
    → length (stop_agent o.id h).agents < site.max_agents
    → IsReady site o
    → (lookup o.id (on_exit later pid code (start_agent site now o (stop_agent o.id h))).agents
        ≡ none)
      × ((new : Rec) × (get_elem?
              (on_exit later pid code (start_agent site now o (stop_agent o.id h))).recs
              (length h.recs)
            ≡ some new)
          × (new.agent ≡ o.id)
          × (new.alive ≡ true))
on_exit-forgets site now later code o h pid r found same room ready =
    let stopped : Host = stop_agent o.id h in
    let (c, comes) = ready stopped.cache in
    let gone : lookup o.id stopped.agents ≡ none =
      subst (λ (xs : List (String × ℕ)). lookup o.id xs ≡ none) (sym (stop_agent-agents o.id h))
        (ground (arith, lookup-erase o.id o.id h.agents, eq_refl o.id)) in
    let started : Host = start_agent site now o stopped in
    let recs : started.recs ≡ h.recs ++ fresh_rec now o c ∷ [] =
      start_agent-recs site now o stopped c gone (omega (arith, room)) comes
      ∙ ap (λ (xs : List Rec). xs ++ fresh_rec now o c ∷ []) (stop_agent-recs o.id h) in
    let old : get_elem? started.recs pid ≡ some r =
      subst (λ (xs : List Rec). get_elem? xs pid ≡ some r) (sym recs)
        (get_elem-append h.recs (fresh_rec now o c ∷ []) pid r found) in
    let dead : Rec = record r { alive = false } in
    (
      ap (lookup o.id) (on_exit-agents later pid code started r old)
          ∙ ground (arith, same, lookup-erase r.agent o.id started.agents, eq_refl o.id),
      (
        fresh_rec now o c,
        ap (λ (xs : List Rec). get_elem? xs (length h.recs))
              (on_exit-recs later pid code started r old)
            ∙ get_elem-set started.recs pid (length h.recs) dead (get_elem-lt h.recs pid r found)
            ∙ ap (λ (xs : List Rec). get_elem? xs (length h.recs)) recs
            ∙ get_elem-last h.recs (fresh_rec now o c),
        refl,
        refl,
      ),
    )
