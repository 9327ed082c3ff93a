-- ===== src/Gossip/Recipients.antt =====
-- Who gets a content by gossip.
use Prim.Native.Nat.{min}
use trin.Prelude.{
  ℕ, ◌≤◌, ◌<◌, ◌≡◌, refl, ap, sym, subst, ◌∙◌, inl, inr, List, [], ◌∷◌, arith, ltb, length, take,
  drop, All, In, here, there, All-append, All-take, All-drop, length-append, length-take,
  length-drop, append_nil, take-take, take-take-append, Bool-cases,
}
use trin.Gossip.Sorting.{
  sort_by-All, All-sort_by, sort_by-IsSorted, length-sort_by, Served, take-Served,
}
use trin.Gossip.{
  Node, Env, sort_by, node_distance, enr_distance, is_interested, interested_enrs,
  select_gossip_recipients, unless_empty, calculate_interested_enrs,
}

-- What rand documents: as many elements as asked for, or all if there are fewer, all of the list.
pub record IsChoice {A : Type 0} (choose : ℕ → List A → List A) : Type 1 where
  pub length-choose : (n : ℕ) (l : List A) → length (choose n l) ≡ min n (length l)
  pub choose-All : (P : A → Type 0) (n : ℕ) (l : List A) → All P l → All P (choose n l)

module _ {NodeId Enr ContentKey : Type 0} (env : Env NodeId Enr ContentKey) where
  -- The ENR of a node whose radius takes the content in.
  abbrev pub Eligible : ContentKey → List (Node NodeId Enr) → Enr → Type 0
  Eligible content_key all_nodes e =
      (n : Node NodeId Enr) × In n all_nodes
      × (n.enr ≡ e)
      × (node_distance env content_key n.id < n.data_radius)

  Eligible-later :
      (content_key : ContentKey) (n : Node NodeId Enr) (all_nodes : List (Node NodeId Enr))
      (l : List Enr)
      → All (Eligible content_key all_nodes) l
      → All (Eligible content_key (n ∷ all_nodes)) l
  Eligible-later content_key n all_nodes [] a = tt
  Eligible-later content_key n all_nodes (e ∷ l) a =
      let (m, i, same, near) = a.0 in
      ((m, there n all_nodes i, same, near), Eligible-later content_key n all_nodes l a.1)

  interested_enrs-Eligible :
      (content_key : ContentKey) (all_nodes : List (Node NodeId Enr))
      → All (Eligible content_key all_nodes) (interested_enrs env content_key all_nodes)
  unfolding interested_enrs
  interested_enrs-Eligible content_key [] = tt
  interested_enrs-Eligible content_key (n ∷ all_nodes) =
      let rest =
        Eligible-later content_key n all_nodes (interested_enrs env content_key all_nodes)
          (interested_enrs-Eligible content_key all_nodes) in
      elim (Bool-cases (is_interested env content_key n)) [
        | inl covered ↦ rw covered ((n, here all_nodes, refl, ground arith), rest)
        | inr beyond ↦ rw beyond rest
      ]

  module _ (laws : IsChoice env.choose_multiple) where
    select_gossip_recipients-All :
        (P : Enr → Type 0) (l : List Enr) → All P l → All P (select_gossip_recipients env l)
    unfolding select_gossip_recipients
    select_gossip_recipients-All P l a = elim (Bool-cases (ltb 4 (length l))) [
      | inl more ↦ rw more (
          All-append P (take 4 l) (env.choose_multiple 4 (drop 4 l)) (All-take P 4 l a)
            (laws.choose-All P 4 (drop 4 l) (All-drop P 4 l a)))
      | inr few ↦ rw few (All-append P (take 4 l) [] (All-take P 4 l a) tt)
    ]

    length-select_gossip_recipients :
        (l : List Enr) → length (select_gossip_recipients env l) ≡ min 8 (length l)
    unfolding select_gossip_recipients
    length-select_gossip_recipients l = elim (Bool-cases (ltb 4 (length l))) [
      | inl more ↦
          let chosen = env.choose_multiple 4 (drop 4 l) in
          let big : 4 < length l = ground arith in
          rw more (
            omega (
              arith,
              length-append (take 4 l) chosen,
              length-take 4 l,
              laws.length-choose 4 (drop 4 l),
              length-drop 4 l,
            ))
      | inr few ↦
          let small : length l ≤ 4 = ground arith in
          rw few (omega (arith, length-append (take 4 l) [], length-take 4 l))
    ]

    take-select_gossip_recipients :
        (l : List Enr) → take 4 (select_gossip_recipients env l) ≡ take 4 l
    unfolding select_gossip_recipients
    take-select_gossip_recipients l = elim (Bool-cases (ltb 4 (length l))) [
      | inl more ↦ rw more (take-take-append 4 l (env.choose_multiple 4 (drop 4 l)) (ground arith))
      | inr few ↦ rw few (ap (take 4) (append_nil (take 4 l)) ∙ take-take 4 l)
    ]

  -- Where the random choice gives as many elements as asked for, or all if there are fewer, all
  -- of its list: the recipients of a content are ENRs of nodes whose radius takes it in. They are
  -- 8, or as many as those nodes if there are fewer; and no ENR of such a node that is not among
  -- the first four recipients is nearer to the content than one of these.
  pub calculate_interested_enrs_lem :
      (laws : IsChoice env.choose_multiple) (content_key : ContentKey)
      (all_nodes : List (Node NodeId Enr))
      → let recipients = calculate_interested_enrs env content_key all_nodes in
        All (Eligible content_key all_nodes) recipients
        × (length recipients ≡ min 8 (length (interested_enrs env content_key all_nodes)))
        × All
            (Served (enr_distance env content_key) (take 4 recipients))
            (interested_enrs env content_key all_nodes)
  unfolding calculate_interested_enrs
  calculate_interested_enrs_lem laws content_key all_nodes =
      chosen (interested_enrs env content_key all_nodes)
        (interested_enrs-Eligible content_key all_nodes)
    where
      chosen :
          (enrs : List Enr)
          → All (Eligible content_key all_nodes) enrs
          → let recipients =
              unless_empty env enrs
                (select_gossip_recipients env (sort_by (enr_distance env content_key) enrs)) in
            All (Eligible content_key all_nodes) recipients
            × (length recipients ≡ min 8 (length enrs))
            × All (Served (enr_distance env content_key) (take 4 recipients)) enrs
      chosen [] a = (tt, omega arith, tt)
      chosen (e ∷ enrs) a =
          let d = enr_distance env content_key in
          let sorted = sort_by d (e ∷ enrs) in
          (
            select_gossip_recipients-All laws (Eligible content_key all_nodes) sorted
                (sort_by-All d (Eligible content_key all_nodes) (e ∷ enrs) a),
            omega (arith, length-select_gossip_recipients laws sorted, length-sort_by d (e ∷ enrs)),
            subst (λ t. All (Served d t) (e ∷ enrs))
                (sym (take-select_gossip_recipients laws sorted))
                (All-sort_by d (Served d (take 4 sorted)) (e ∷ enrs)
                  (take-Served d 4 sorted (sort_by-IsSorted d (e ∷ enrs)))),
          )
