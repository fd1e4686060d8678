-- ===== src/Dashboard/Children.antt =====
-- The tree of the dashboard: `child_count` of a node is the number of its children in the tree.
use hivekernel.Prelude.{
  ℕ, ◌+◌, ◌-◌, ◌≡◌, ◌≢◌, refl, sym, ap, ◌∙◌, subst, Option, none, some, [], ◌∷◌, ◌==◌,
  if◌then◌else◌, arith,
}
use hivekernel.Prelude.Text.{Text}
use hivekernel.Dashboard.Tables.{
  Table, find, put, pop, find-put, find-pop, Distinct, Distinct-put, Distinct-pop, pop_absent,
}
use hivekernel.Dashboard.{
  Node, spawn_node, recount, remove_node, remove_found, change_state, set_state,
}

-- The nodes of the tree whose parent is `p`.
unfoldable pub children : ℕ → Table Node → ℕ
children p [] = 0
children p ((k, n) ∷ t) = if n.ppid == p then children p t + 1 else children p t

children-put_new :
    (p k : ℕ) (n : Node) (t : Table Node)
    → find k t ≡ none
    → children p (put k n t) ≡ (if n.ppid == p then children p t + 1 else children p t)
unfolding children find put
children-put_new p k n [] h = refl
children-put_new p k n ((j, m) ∷ t) h = ground (arith, children-put_new p k n t)

children-put_same :
    (p k : ℕ) (n m : Node) (t : Table Node)
    → find k t ≡ some m
    → n.ppid ≡ m.ppid
    → children p (put k n t) ≡ children p t
unfolding children find put
children-put_same p k n m [] h e = cc
children-put_same p k n m ((j, o) ∷ t) h e = ground (arith, children-put_same p k n m t)

children-pop :
    (p k : ℕ) (m : Node) (t : Table Node)
    → Distinct t
    → find k t ≡ some m
    → children p t ≡ (if m.ppid == p then children p (pop k t) + 1 else children p (pop k t))
unfolding children find pop
children-pop p k m [] d h = cc
children-pop p k m ((j, o) ∷ t) d h = ground (arith, children-pop p k m t, pop_absent k t)

-- A tree that has each process once, and each child counted.
pub record IsCounted (t : Table Node) : Type 0 where
  pub distinct : Distinct t
  pub counts : (p : ℕ) (n : Node) → find p t ≡ some n → n.child_count ≡ children p t

-- A change of the count of `k` alone, which makes up for that of its children.
recount-IsCounted :
    (f : ℕ → ℕ) (found : Option Node) (k : ℕ) (t : Table Node)
    → find k t ≡ found
    → Distinct t
    → ((n : Node) → find k t ≡ some n → f n.child_count ≡ children k t)
    → ((p : ℕ) (n : Node) → p ≢ k → find p t ≡ some n → n.child_count ≡ children p t)
    → IsCounted (recount f found k t)
unfolding recount
recount-IsCounted f none k t e d own others = record {
  distinct = d;
  counts = λ p n h. ground (arith, others p n, e);
}
recount-IsCounted f (some m) k t e d own others = record {
  distinct = Distinct-put k (record m { child_count = f m.child_count }) t d;
  counts = λ p n h.
      let m' = record m { child_count = f m.child_count } in
      ground (arith, find-put k p m' t, children-put_same p k m' m t e refl, own m e, others p n);
}

pub spawn-IsCounted :
    (node : Node) (t : Table Node)
    → find node.pid t ≡ none
    → children node.pid t ≡ 0
    → node.ppid ≢ node.pid
    → node.child_count ≡ 0
    → IsCounted t
    → IsCounted (spawn_node node t)
unfolding spawn_node
spawn-IsCounted node t fresh childless own_parent zero_count h =
    let t' = put node.pid node t in
    recount-IsCounted (λ n. n + 1) (find node.ppid t') node.ppid t' refl
      (Distinct-put node.pid node t h.distinct)
      (λ n e. ground (
        arith,
        find-put node.pid node.ppid node t,
        children-put_new node.ppid node.pid node t fresh,
        h.counts node.ppid n,
      ))
      (λ p n other e.
        ground (
          arith,
          find-put node.pid p node t,
          children-put_new p node.pid node t fresh,
          h.counts p n,
        ))

remove_found-IsCounted :
    (found : Option Node) (pid : ℕ) (t : Table Node)
    → find pid t ≡ found
    → IsCounted t
    → IsCounted (remove_found found pid t)
unfolding remove_found
remove_found-IsCounted none pid t e h = h
remove_found-IsCounted (some node) pid t e h =
    let t' = pop pid t in
    recount-IsCounted (λ n. n - 1) (find node.ppid t') node.ppid t' refl
      (Distinct-pop pid t h.distinct)
      (λ n f. ground (
        arith,
        find-pop pid node.ppid t,
        children-pop node.ppid pid node t h.distinct e,
        h.counts node.ppid n,
      ))
      (λ p n other f.
        ground (arith, find-pop pid p t, children-pop p pid node t h.distinct e, h.counts p n))

set_state-IsCounted :
    (found : Option Node) (pid : ℕ) (state : Text) (t : Table Node)
    → find pid t ≡ found
    → IsCounted t
    → IsCounted (set_state found pid state t)
unfolding set_state
set_state-IsCounted none pid state t e h = h
set_state-IsCounted (some node) pid state t e h = record {
  distinct = Distinct-put pid (record node { state = state }) t h.distinct;
  counts = λ p n f.
      let node' = record node { state = state } in
      ground (
        arith,
        find-put pid p node' t,
        children-put_same p pid node' node t e refl,
        h.counts pid node e,
        h.counts p n,
      );
}

pub remove_node-IsCounted : (pid : ℕ) (t : Table Node) → IsCounted t → IsCounted (remove_node pid t)
unfolding remove_node
remove_node-IsCounted pid t h = remove_found-IsCounted (find pid t) pid t refl h

pub change_state-IsCounted :
    (pid : ℕ) (state : Text) (t : Table Node) → IsCounted t → IsCounted (change_state pid state t)
unfolding change_state
change_state-IsCounted pid state t h = set_state-IsCounted (find pid t) pid state t refl h

-- A process that is in the tree already, and is reported as spawned once more, is counted twice: where
-- every child was counted once, its parent ends with one child more than it has.
pub spawn_twice :
    (node known parent : Node) (t : Table Node)
    → IsCounted t
    → find node.pid t ≡ some known
    → known.ppid ≡ node.ppid
    → find node.ppid t ≡ some parent
    → node.ppid ≢ node.pid
    → find node.ppid (spawn_node node t)
      ≡ some (record parent { child_count = children node.ppid (spawn_node node t) + 1 })
unfolding spawn_node
spawn_twice node known parent t h here same there differ =
    let t' = put node.pid node t in
    let e : find node.ppid t' ≡ some parent = ground (arith, find-put node.pid node.ppid node t) in
    let parent' = record parent { child_count = parent.child_count + 1 } in
    let count = h.counts node.ppid parent there in
    let c1 = children-put_same node.ppid node.pid node known t here (sym same) in
    let c2 = children-put_same node.ppid node.ppid parent' parent t' e refl in
    let found : find node.ppid (put node.ppid parent' t') ≡ some parent' =
      ground (arith, find-put node.ppid node.ppid parent' t') in
    subst (λ x. find node.ppid x ≡ some (record parent { child_count = children node.ppid x + 1 }))
      (sym (ap (λ o. recount (λ n. n + 1) o node.ppid t') e))
      (found ∙ ap (λ k. some (record parent { child_count = k + 1 })) (count ∙ sym (c2 ∙ c1)))
