-- ===== src/NodeHost/Host/Cycle.antt =====
-- A host and the control plane together: what runs after a heartbeat's assignments were carried out.
use circuit_agent_cloud.Prelude.{
  ℕ, suc, ◌≤◌, ◌≡◌, refl, ap, sym, ◌∙◌, Bool, false, not, String, ◌==◌, List, [], ◌∷◌, ◌++◌, Option,
  none, some, lookup, includes, length, keep, arith,
}
use circuit_agent_cloud.ControlPlane.State.{Node, Cloud, Distinct}
use circuit_agent_cloud.ControlPlane.Heartbeat.{
  Custody, SignerBlock, Assignment, starts, stops, assignments, heartbeat,
}
use circuit_agent_cloud.ControlPlane.Heartbeat.Laws.{obey, heartbeat_starts, heartbeat_settles}
use circuit_agent_cloud.ControlPlane.Heartbeat.Apart.{heartbeat-apart}
use circuit_agent_cloud.NodeHost.Resolve.{Site, Order, Cache, Command, command, resolve_workload}
use circuit_agent_cloud.NodeHost.Host.{
  Host, Action, start, stop, ids, start_agent, stop_agent, carry_out,
}
use circuit_agent_cloud.NodeHost.Host.Keys.{
  includes-ids, length-ids, ids-insert, ids-erase, start_agent-agents, stop_agent-agents,
}
use circuit_agent_cloud.NodeHost.Host.Fits.{
  Fits, obey-starts, obey-stops, obey-nil, Fits-starts, Fits-stops, starts-fresh, starts-stays,
  starts-room,
}

-- How an assignment of the control plane reads on the host.
abbrev pub Wire : Type 0
Wire = String → Option String → Option String → Option SignerBlock → Order

unfoldable pub deliver : Wire → List Assignment → List Action
deliver wire [] = []
deliver wire (starts id owner runtime block ∷ rest) =
    start (wire id owner runtime block) ∷ deliver wire rest
deliver wire (stops id ∷ rest) = stop id ∷ deliver wire rest

-- The workload can be started, whatever is unpacked already.
abbrev pub IsReady : Site → Order → Type 0
IsReady site o = (cache : Cache) → (c : Command) × ((resolve_workload site o cache).1 ≡ command c)

-- Every workload that is to start can be.
abbrev pub StartsReady : Site → Wire → List Assignment → Type 0
StartsReady site wire [] = Unit
StartsReady site wire (starts id owner runtime block ∷ rest) =
    IsReady site (wire id owner runtime block) × StartsReady site wire rest
StartsReady site wire (stops id ∷ rest) = StartsReady site wire rest

module _ (site : Site) (now : ℕ) where
  start_agent-ids :
      (o : Order) (h : Host)
      → IsReady site o
      → includes o.id (ids h.agents) ≡ false
      → suc (length (ids h.agents)) ≤ site.max_agents
      → ids (start_agent site now o h).agents ≡ ids h.agents ++ o.id ∷ []
  start_agent-ids o h ready fresh room =
      let (c, comes) = ready h.cache in
      let absent : lookup o.id h.agents ≡ none =
        ground (arith, fresh, includes-ids o.id h.agents) in
      ap ids
        (start_agent-agents site now o h c absent (ground (arith, room, length-ids h.agents)) comes)
      ∙ ids-insert o.id (length h.recs) h.agents absent

  stop_agent-ids :
      (id : String) (h : Host)
      → ids (stop_agent id h).agents ≡ keep (λ k. not (k == id)) (ids h.agents)
  stop_agent-ids id h = ap ids (stop_agent-agents id h) ∙ ids-erase id h.agents

  carry_out-nil : (h : Host) → ids (carry_out site now [] h).agents ≡ ids h.agents
  unfolding carry_out
  carry_out-nil h = refl

  carry_out-starts :
      (o : Order) (rest : List Action) (h : Host)
      → carry_out site now (start o ∷ rest) h ≡ carry_out site now rest (start_agent site now o h)
  unfolding carry_out
  carry_out-starts o rest h = refl

  carry_out-stops :
      (id : String) (rest : List Action) (h : Host)
      → carry_out site now (stop id ∷ rest) h ≡ carry_out site now rest (stop_agent id h)
  unfolding carry_out
  carry_out-stops id rest h = refl

  module _ (wire : Wire)
      (delivers : (id : String) (owner runtime : Option String) (block : Option SignerBlock)
        → (wire id owner runtime block).id ≡ id) where
    -- A host that can start everything runs what it is told to.
    pub carry_out-obey :
        (issued : List Assignment) (h : Host) (r : List String)
        → ids h.agents ≡ r
        → StartsReady site wire issued
        → Fits site.max_agents issued r
        → ids (carry_out site now (deliver wire issued) h).agents ≡ obey r issued
    unfolding deliver
    carry_out-obey [] h r e ready f = carry_out-nil h ∙ e ∙ sym (obey-nil r)
    carry_out-obey (starts id owner runtime block ∷ rest) h r e (first, ready) f =
        let o : Order = wire id owner runtime block in
        let same : o.id ≡ id = delivers id owner runtime block in
        let grown : ids (start_agent site now o h).agents ≡ r ++ id ∷ [] =
          start_agent-ids o h first (ground (arith, e, same, starts-fresh f))
            (ground (arith, e, starts-room f))
          ∙ ap (λ (xs : List String). xs ++ o.id ∷ []) e
          ∙ ap (λ (x : String). r ++ x ∷ []) same in
        ap (λ (x : Host). ids x.agents) (carry_out-starts o (deliver wire rest) h)
        ∙ carry_out-obey rest (start_agent site now o h) (r ++ id ∷ []) grown ready
            (Fits-starts site.max_agents id owner runtime block rest r f)
        ∙ sym (obey-starts r id owner runtime block rest (starts-stays f))
    carry_out-obey (stops id ∷ rest) h r e ready f =
        let here : String → Bool = λ k. not (k == id) in
        ap (λ (x : Host). ids x.agents) (carry_out-stops id (deliver wire rest) h)
        ∙ carry_out-obey rest (stop_agent id h) (keep here r)
            (stop_agent-ids id h ∙ ap (keep here) e) ready (Fits-stops site.max_agents id rest r f)
        ∙ sym (obey-stops r id rest)

-- If the ids on record are distinct, a heartbeat of a node was answered with assignments, and the
-- host carries them out, where each assignment keeps its id on the way, every workload that is to
-- start can be started, and the budget on record is not above the host's: the answer to the next
-- heartbeat, with the agents that the host then runs, assigns nothing, as long as no other request
-- comes between.
pub heartbeat-carry_out :
    (site : Site) (wire : Wire) (c c' : Custody) (now at later : ℕ) (caller : Option String)
    (node : String) (h : Host) (cloud cloud' : Cloud) (n : Node) (issued : List Assignment)
    → ((id : String) (owner runtime : Option String) (block : Option SignerBlock)
        → (wire id owner runtime block).id ≡ id)
    → StartsReady site wire issued
    → Distinct cloud.agents
    → lookup node cloud.nodes ≡ some n
    → n.max_agents ≤ site.max_agents
    → heartbeat c now caller node (ids h.agents) cloud ≡ (cloud', assignments issued)
    → (heartbeat c' later caller node
        (ids (carry_out site at (deliver wire issued) h).agents)
        cloud').1
      ≡ assignments []
heartbeat-carry_out site wire c c' now at later caller node h cloud cloud' n issued delivers ready d
      found budget told =
    let r : List String = ids h.agents in
    let (once, fresh, running) = heartbeat-apart c now caller node r cloud cloud' issued d told in
    let room = heartbeat_starts c now caller node r cloud n cloud' issued found told in
    let fits : Fits site.max_agents issued r = record {
      once = once;
      fresh = fresh;
      stays = λ id s. ground (arith, s, fresh id, running id);
      room = ground (arith, room, budget);
    } in
    ap (λ (xs : List String). (heartbeat c' later caller node xs cloud').1)
      (carry_out-obey site at wire delivers issued h r refl ready fits)
    ∙ heartbeat_settles c c' now later caller node r cloud cloud' issued d told
