-- ===== src/Overlay/Responses/Listed.antt =====
-- Which ENRs the responses list.
use trin.Prelude.{
  ℕ, zero, suc, ◌≤◌, ◌==◌, ◌≡◌, refl, ◌⊎◌, inl, inr, Option, none, some, List, [], ◌∷◌, arith,
  length, length-take, take, All, All-take, All-In, All-of-In, In, Bool-cases,
}
use trin.Prelude.Outcome.{ok}
use trin.Gossip.{sort_by}
use trin.Gossip.Sorting.{IsSorted, sort_by-All, All-sort_by, sort_by-IsSorted, Served, take-Served}
use trin.Overlay.{ContentStore, Cid}
use trin.Overlay.Responses.{
  KBuckets, Crates, find_nodes_max_nodes, find_content_max_nodes, max_portal_nodes_enrs_size,
  max_portal_content_payload_size, connected_enrs, dedup, dedup_after, enrs, without, at_distances,
  local_or_at, nodes_by_distance, handle_find_nodes, enr_distance, find_nodes_close_to_content,
  handle_find_content,
}
use trin.Overlay.Responses.Popped.{pop_while_ssz_bytes_len_gt_lem}
use trin.Overlay.Responses.Filtered.{
  IsOther, without-All, without-IsSorted, take-IsSorted, length-take-le, length-without-le,
  cut-Served,
}

module _ {Enr : Type 0} (crates : Crates Enr) where
  dedup_after-All : (P : ℕ → Type 0) (n : ℕ) (l : List ℕ) → All P l → All P (dedup_after n l)
  dedup_after-All P n [] a = tt
  dedup_after-All P n (m ∷ l) a = elim (Bool-cases (n == m)) [
    | inl same ↦ rw same (dedup_after-All P m l a.1)
    | inr other ↦ rw other (a.0, dedup_after-All P m l a.1)
  ]

  dedup-All : (P : ℕ → Type 0) (l : List ℕ) → All P l → All P (dedup l)
  dedup-All P [] a = tt
  dedup-All P (n ∷ l) a = (a.0, dedup_after-All P n l a.1)

  -- The local ENR, for distance 0, or that of a connected entry at distances that are asked for.
  abbrev pub IsAsked : KBuckets Enr → Enr → List ℕ → Enr → Type 0
  IsAsked kbuckets local_enr distances e =
      ((e ≡ local_enr) × In 0 distances)
      ⊎ ((ds : List ℕ) × All (λ n. In n distances) ds
          × In e (connected_enrs (kbuckets.nodes_by_distances ds find_nodes_max_nodes)))

  at_distances-IsAsked :
      (kbuckets : KBuckets Enr) (local_enr : Enr) (distances ds : List ℕ)
      → All (λ n. In n distances) ds
      → All (IsAsked kbuckets local_enr distances) (at_distances crates kbuckets ds)
  at_distances-IsAsked kbuckets local_enr distances [] a = tt
  at_distances-IsAsked kbuckets local_enr distances (d ∷ ds) a =
      All-of-In (IsAsked kbuckets local_enr distances) (at_distances crates kbuckets (d ∷ ds))
        (λ e i. inr (d ∷ ds, a, i))

  local_or_at-IsAsked :
      (kbuckets : KBuckets Enr) (local_enr : Enr) (distances ds : List ℕ)
      → All (λ n. In n distances) ds
      → All (IsAsked kbuckets local_enr distances) (local_or_at crates kbuckets local_enr ds)
  local_or_at-IsAsked kbuckets local_enr distances [] a = tt
  local_or_at-IsAsked kbuckets local_enr distances (zero ∷ ds) a =
      (inl (refl, a.0), at_distances-IsAsked kbuckets local_enr distances ds a.1)
  local_or_at-IsAsked kbuckets local_enr distances (suc d ∷ ds) a =
      at_distances-IsAsked kbuckets local_enr distances (suc d ∷ ds) a

  -- The response to FINDNODES is built, and fits in a packet. It does not list the source, and only
  -- the local ENR, if distance 0 is asked for, and those of connected entries at distances that are.
  pub handle_find_nodes_lem :
      (kbuckets : KBuckets Enr) (local_enr : Enr) (source distances : List ℕ)
      → crates.ssz_bytes_len [] ≡ 0
      → (l : List Enr) × (handle_find_nodes crates kbuckets local_enr source distances ≡ some l)
        × (crates.ssz_bytes_len l ≤ max_portal_nodes_enrs_size)
        × All (λ e. IsOther crates source e × IsAsked kbuckets local_enr distances e) l
  unfolding handle_find_nodes nodes_by_distance
  handle_find_nodes_lem kbuckets local_enr source distances empty =
      let ds = dedup (sort_by (λ n. n) distances) in
      let asked : All (λ n. In n distances) ds =
        dedup-All (λ n. In n distances) (sort_by (λ n. n) distances)
          (sort_by-All (λ n. n) (λ n. In n distances) distances
            (All-of-In (λ n. In n distances) distances (λ n i. i))) in
      let found = nodes_by_distance crates kbuckets local_enr distances in
      let (k, e, fits) =
        pop_while_ssz_bytes_len_gt_lem crates (without crates source found)
          max_portal_nodes_enrs_size empty in
      (
        take k (without crates source found),
        e,
        fits.1,
        All-take _ k (without crates source found) (
            without-All crates (IsAsked kbuckets local_enr distances) source found
              (local_or_at-IsAsked kbuckets local_enr distances ds asked)),
      )

  module _ {Store ContentKey E : Type 0} (c : ContentStore Store ContentKey E)
      (try_from : List ℕ → Option ContentKey) (id_of_key : ContentKey → List ℕ) where
    -- A content that is not stored is answered with ENRs of connected nodes, which fit in a packet: at
    -- most 32, from the nearest to the content on, without the source. Any other connected node is
    -- listed or not nearer than those that are listed.
    pub handle_find_content_lem :
        (s : Store) (kbuckets : KBuckets Enr) (node_addr : Option Enr) (cid : Enr → Cid)
        (source content_key : List ℕ) (key : ContentKey)
        → crates.ssz_bytes_len [] ≡ 0
        → try_from content_key ≡ some key
        → c.get s key ≡ ok none
        → let d = enr_distance crates (id_of_key key) in
          (l : List Enr) × (handle_find_content crates c try_from id_of_key s kbuckets node_addr cid
              source content_key
            ≡ ok (enrs l, none))
          × (crates.ssz_bytes_len l ≤ max_portal_content_payload_size)
          × (length l ≤ find_content_max_nodes)
          × IsSorted d l
          × All (λ e. IsOther crates source e × In e (connected_enrs kbuckets.nodes)) l
          × ((e : Enr)
              → In e (connected_enrs kbuckets.nodes)
              → IsOther crates source e
              → Served d l e)
    unfolding handle_find_content find_nodes_close_to_content
    handle_find_content_lem s kbuckets node_addr cid source content_key key empty read missing =
        let d = enr_distance crates (id_of_key key) in
        let nodes = connected_enrs kbuckets.nodes in
        let sorted = sort_by d nodes in
        let near = take find_content_max_nodes sorted in
        let others = without crates source near in
        let (k, e, fits) =
          pop_while_ssz_bytes_len_gt_lem crates others max_portal_content_payload_size empty in
        let others_sorted =
          without-IsSorted crates d source near
            (take-IsSorted crates d find_content_max_nodes sorted (sort_by-IsSorted d nodes)) in
        let listed : All (λ f. IsOther crates source f × In f nodes) others =
          without-All crates (λ f. In f nodes) source near
            (All-take (λ f. In f nodes) find_content_max_nodes sorted
              (sort_by-All d (λ f. In f nodes) nodes
                (All-of-In (λ f. In f nodes) nodes (λ f i. i)))) in
        (
          take k others,
          (rw (read, missing, e) refl),
          fits.1,
          omega (
            arith,
            length-take k others,
            length-without-le crates source near,
            length-take-le crates find_content_max_nodes sorted,
          ),
          take-IsSorted crates d k others others_sorted,
          All-take _ k others listed,
          λ f i other.
              cut-Served crates d source near k f
                (All-In (Served d near) nodes
                  (All-sort_by d (Served d near) nodes
                    (take-Served d find_content_max_nodes sorted (sort_by-IsSorted d nodes)))
                  i)
                other others_sorted,
        )
