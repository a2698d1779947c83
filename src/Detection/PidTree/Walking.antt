-- ===== src/Detection/PidTree/Walking.antt =====
-- engines/detector.rs: what holds during the walk of `expand_pid_tree`.
use spark_dashboard.Prelude.{
  ℕ, ◌≡◌, ◌∙◌, refl, ap, true, false, ◌||◌, List, [], ◌∷◌, inl, inr, Assoc, lookup, arith, nat_eq,
  nat_beq_iff, ◌==◌, Bool-cases,
}
use spark_dashboard.Detection.PidLists.{has, has-append, Distinct, Distinct-append_one}
use spark_dashboard.Detection.PidTree.{
  Tree, fill_children, children_of, Walk, visit, visit_all, start,
}
use spark_dashboard.Detection.PidTree.Children.{
  is_child, Descends, root, child, children_of-fill_children,
}

module _ (roots : List ℕ) (processes : Tree) where
  -- The walk while the PIDs of `todo` are being visited.
  pub record Inv (todo : List ℕ) (w : Walk) : Type 0 where
    pub same : (p : ℕ) → has p w.result ≡ has p w.seen
    pub reached : (p : ℕ) → has p w.seen ≡ true → Descends roots processes p
    pub queued : (p : ℕ) → has p w.queue ≡ true → has p w.seen ≡ true
    pub roots_seen : (p : ℕ) → has p roots ≡ true → (has p w.seen || has p todo) ≡ true
    pub closed :
        (q p : ℕ)
        → has q w.seen ≡ true
        → has q w.queue ≡ false
        → is_child processes q p ≡ true
        → (has p w.seen || has p todo) ≡ true
    pub distinct : Distinct w.result

  Inv-visit :
      (c : ℕ) (todo : List ℕ) (w : Walk)
      → Descends roots processes c
      → Inv (c ∷ todo) w
      → Inv todo (visit c w)
  unfolding visit
  Inv-visit c todo w d inv = elim (Bool-cases (has c w.seen)) [
    | inl old ↦
        rw (visit, old)
          (record {
            same = inv.same;
            reached = inv.reached;
            queued = inv.queued;
            roots_seen = λ p h. ground (arith, inv.roots_seen p h, nat_beq_iff c p);
            closed = λ q p s nq ch. ground (arith, inv.closed q p s nq ch, nat_beq_iff c p);
            distinct = inv.distinct;
          })
    | inr new ↦
        rw (visit, new)
          (record {
            same = λ p. ground (arith, inv.same p, has-append p w.result (c ∷ []));
            reached = λ p h. elim (Bool-cases (c == p)) [
              | inl is_c ↦ rw (← (nat_beq_iff c p).0 is_c) d
              | inr not_c ↦ inv.reached p (ground arith)
            ];
            queued = λ p h. ground (arith, inv.queued p);
            roots_seen = λ p h. ground (arith, inv.roots_seen p h);
            closed = λ q p s nq ch. ground (arith, inv.closed q p);
            distinct = Distinct-append_one c w.result (inv.same c ∙ new) inv.distinct;
          })
  ]

  Inv-visit_all :
      (todo : List ℕ) (w : Walk)
      → ((p : ℕ) → has p todo ≡ true → Descends roots processes p)
      → Inv todo w
      → Inv [] (visit_all todo w)
  Inv-visit_all [] w d inv = inv
  Inv-visit_all (c ∷ todo) w d inv =
      Inv-visit_all todo (visit c w) (λ p h. d p (ground arith))
        (Inv-visit c todo w (d c (ground (arith, nat_beq_iff c c))) inv)

  pub Inv-start : Inv [] (start roots)
  unfolding start
  Inv-start =
      Inv-visit_all roots (record { seen = []; queue = []; result = [] }) (λ p h. root p h)
        (record {
          same = λ p. refl;
          reached = λ p h. cc;
          queued = λ p h. cc;
          roots_seen = λ p h. h;
          closed = λ q p s nq ch. cc;
          distinct = tt;
        })

  abbrev pub children : Assoc ℕ (List ℕ)
  children = fill_children [] processes

  pub children_of-children : (q p : ℕ) → has p (children_of children q) ≡ is_child processes q p
  unfolding children_of lookup
  children_of-children q p = children_of-fill_children [] processes q p

  -- One round of the loop, with `pid` from the end of the queue.
  abbrev pub step : Walk → ℕ → List ℕ → Walk
  step w pid queue = visit_all (children_of children pid) (record w { queue = queue })

  pub Inv-step :
      (w : Walk) (pid : ℕ) (queue : List ℕ)
      → w.queue ≡ pid ∷ queue
      → Inv [] w
      → Inv [] (step w pid queue)
  Inv-step w pid queue e inv =
      let here : (p : ℕ) → has p w.queue ≡ (pid == p || has p queue) = λ p. ap (has p) e in
      let pid_seen : has pid w.seen ≡ true =
        inv.queued pid (ground (arith, here pid, nat_beq_iff pid pid)) in
      Inv-visit_all (children_of children pid) (record w { queue = queue })
        (λ p h. child pid p (inv.reached pid pid_seen) (ground (arith, children_of-children pid p)))
        (record {
          same = inv.same;
          reached = inv.reached;
          queued = λ p h. inv.queued p (ground (arith, here p));
          roots_seen = λ p h. ground (arith, inv.roots_seen p h);
          closed = λ q p s nq ch. elim (Bool-cases (pid == q)) [
            | inl now ↦
                let of_pid : is_child processes pid p ≡ true = rw ((nat_beq_iff pid q).0 now) ch in
                ground (arith, children_of-children pid p)
            | inr before ↦ ground (arith, inv.closed q p s (here q ∙ ground arith) ch)
          ];
          distinct = inv.distinct;
        })
