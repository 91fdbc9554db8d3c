-- ===== src/Coordinator/System/Registered.antt =====
-- Which nodes are registered while the coordinator runs.
pub mod Steps
use rtc_bridge.Prelude.{
  ==_iff, Bool, Bool-cases, Bytes, Distinct, Distinct-delete, Distinct-insert, Map, Option, [], ap,
  arith, bytes_eq_iff, bytes_eq_refl, delete, false, if_cases, inl, inr, insert, lookup,
  lookup-delete_cases, lookup-insert_cases, none, refl, some, some_injective, subst, suc, sym, true,
  update, update-ne, update_self, ℕ, ◌==◌, ◌>>=◌, ◌∙◌, ◌∷◌, ◌≡◌, ◌≢◌, ◌≤◌,
}
use rtc_bridge.Coordinator.State.{Node, Coordinator, set_node}
use rtc_bridge.Coordinator.Registry.{is_stale, prune_entry, prune_entries, prune}
use rtc_bridge.Coordinator.Registry.Lookup.{lookup-prune_entry}
use rtc_bridge.Coordinator.System.{System, start}

-- The node behind `p` has this id, its read loop runs, and its connection is open.
pub record IsLive (heap : ℕ → Option Node) (closed looping : ℕ → Bool) (id : Bytes) (p : ℕ)
    : Type 0 where
  pub node : Node
  pub at_p : heap p ≡ some node
  pub same_id : node.id ≡ id
  pub loops : looping p ≡ true
  pub opened : closed p ≡ false

pub record IsRegistry (nodes : Map ℕ) (heap : ℕ → Option Node) (closed looping : ℕ → Bool)
    (next_node : ℕ) : Type 0 where
  pub distinct : Distinct nodes
  pub live : (id : Bytes) (p : ℕ) → lookup id nodes ≡ some p → IsLive heap closed looping id p
  pub fresh : (p : ℕ) → next_node ≤ p → heap p ≡ none

-- With the fields of a system.
abbrev pub Registered : System → Coordinator → Type 0
Registered s c = IsRegistry c.nodes c.heap c.closed s.looping s.next_node

pub start-Registered : Registered start start.coord
unfolding start lookup
start-Registered = record { distinct = tt; live = λ id p e. cc; fresh = λ p h. refl }

module _ {nodes : Map ℕ} {heap : ℕ → Option Node} {closed looping : ℕ → Bool} {next_node : ℕ}
    (v : IsRegistry nodes heap closed looping next_node) where
  -- A write to a node that leaves its id.
  pub written-IsRegistry :
      (p : ℕ) (n m : Node)
      → heap p ≡ some n
      → m.id ≡ n.id
      → IsRegistry nodes (update heap p (some m)) closed looping next_node
  written-IsRegistry p n m at_p same = record {
    distinct = v.distinct;
    live = λ id q e.
        let w = v.live id q e in
        elim (Bool-cases (p == q)) [
          | inl here ↦ record {
            node = m;
            at_p = ground (arith, here);
            same_id =
                let is : p ≡ q = (==_iff p q).0 here in
                let one : n ≡ w.node = some_injective (sym at_p ∙ ap heap is ∙ w.at_p) in
                same ∙ ap (λ (n : Node). n.id) one ∙ w.same_id;
            loops = w.loops;
            opened = w.opened;
          }
          | inr other ↦ record {
            node = w.node;
            at_p = rw (update, other) w.at_p;
            same_id = w.same_id;
            loops = w.loops;
            opened = w.opened;
          }
        ];
    fresh = λ q h. update-ne heap p (some m) q (λ is. cc (v.fresh q h, at_p, is)) ∙ v.fresh q h;
  }

  -- A new node.
  pub accepted-IsRegistry :
      (n : Node)
      → IsRegistry
          (insert n.id next_node nodes)
          (update heap next_node (some n))
          (update closed next_node false)
          (update looping next_node true)
          (suc next_node)
  accepted-IsRegistry n = record {
    distinct = Distinct-insert n.id next_node nodes v.distinct;
    live = λ id q e. elim (lookup-insert_cases n.id id next_node nodes e) [
      | inl (named, is) ↦ record {
        node = n;
        at_p = rw (← is) (update_self heap next_node (some n));
        same_id = named;
        loops = rw (← is) (update_self looping next_node true);
        opened = rw (← is) (update_self closed next_node false);
      }
      | inr (unnamed, before) ↦
          let w = v.live id q before in
          let other : next_node ≢ q = λ is. cc (v.fresh next_node (omega arith), is, w.at_p) in
          record {
            node = w.node;
            at_p = update-ne heap next_node (some n) q other ∙ w.at_p;
            same_id = w.same_id;
            loops = update-ne looping next_node true q other ∙ w.loops;
            opened = update-ne closed next_node false q other ∙ w.opened;
          }
    ];
    fresh = λ q h.
        update-ne heap next_node (some n) q (λ is. omega (arith, is, h))
        ∙ v.fresh q (omega (arith, h));
  }

  -- A node whose connection is closed, when its id is deleted. Its loop may have ended.
  pub ended-IsRegistry :
      (p : ℕ) (n : Node) (looping' : ℕ → Bool)
      → heap p ≡ some n
      → ((q : ℕ) → p ≢ q → looping' q ≡ looping q)
      → IsRegistry (delete n.id nodes) heap (update closed p true) looping' next_node
  ended-IsRegistry p n looping' at_p same = record {
    distinct = Distinct-delete n.id nodes v.distinct;
    live = λ id q e.
        let (unnamed, before) = lookup-delete_cases n.id id nodes e in
        let w = v.live id q before in
        let other : p ≢ q = λ is.
          unnamed (
            ap (λ (n : Node). n.id) (some_injective (sym at_p ∙ ap heap is ∙ w.at_p))
            ∙ w.same_id) in
        record {
          node = w.node;
          at_p = w.at_p;
          same_id = w.same_id;
          loops = same q other ∙ w.loops;
          opened = update-ne closed p true q other ∙ w.opened;
        };
    fresh = v.fresh;
  }

-- The entry of a registered node, in a round of pruning.
prune_entry-IsRegistry :
    (now : ℕ) (id : Bytes) (p : ℕ) (c : Coordinator) (looping : ℕ → Bool) (next_node : ℕ)
    → lookup id c.nodes ≡ some p
    → IsRegistry c.nodes c.heap c.closed looping next_node
    → let c' = prune_entry now id p c in IsRegistry c'.nodes c'.heap c'.closed looping next_node
unfolding prune_entry
prune_entry-IsRegistry now id p c looping next_node found v =
    let w = v.live id p found in
    if_cases (λ (c' : Coordinator). IsRegistry c'.nodes c'.heap c'.closed looping next_node)
      (is_stale now (c.heap p))
      (λ _.
        subst (λ i. IsRegistry (delete i c.nodes) c.heap (update c.closed p true) looping next_node)
          w.same_id (ended-IsRegistry v p w.node looping w.at_p (λ q other. refl)))
      (λ _. v)

prune_entries-IsRegistry :
    (now : ℕ) (entries : Map ℕ) (c : Coordinator) (looping : ℕ → Bool) (next_node : ℕ)
    → Distinct entries
    → ((id : Bytes) (p : ℕ) → lookup id entries ≡ some p → lookup id c.nodes ≡ some p)
    → IsRegistry c.nodes c.heap c.closed looping next_node
    → let c' = prune_entries now entries c in
      IsRegistry c'.nodes c'.heap c'.closed looping next_node
unfolding prune_entries lookup
prune_entries-IsRegistry now [] c looping next_node d found v = v
prune_entries-IsRegistry now ((id, p) ∷ entries) c looping next_node d found v =
    prune_entries-IsRegistry now entries (prune_entry now id p c) looping next_node d.1
      (λ j q e.
        let other : id ≢ j = λ is. cc (d.0, is, e) in
        let here : lookup j ((id, p) ∷ entries) ≡ some q = ground (arith, bytes_eq_iff id j, e) in
        ground (arith, lookup-prune_entry now id p c j, bytes_eq_iff id j, found j q here))
      (prune_entry-IsRegistry now id p c looping next_node
        (found id p (ground (arith, bytes_eq_refl id))) v)

pub prune-Registered :
    (now : ℕ) (s : System) → Registered s s.coord → Registered s (prune now s.coord)
unfolding prune
prune-Registered now s v =
    prune_entries-IsRegistry now s.coord.nodes s.coord s.looping s.next_node v.distinct
      (λ id p e. e) v
