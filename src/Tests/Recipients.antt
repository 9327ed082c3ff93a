-- ===== src/Tests/Recipients.antt =====
-- Gossip to a few nodes, which are numbers; the bytes of a number are one, and the choice among the
-- farther nodes takes the first ones.
use Prim.Native.Nat.{min}
use trin.Prelude.{
  ℕ, ◌≡◌, ◌↔◌, Bool, true, false, Option, none, some, List, [], ◌∷◌, All, All-take, take, length,
  length-take, refl,
}
use trin.Gossip.{
  Node, Env, calculate_interested_enrs, interested_enrs, enr_distance, select_gossip_recipients,
  sort_by, insert_by,
}
use trin.Gossip.Sorting.{Served}
use trin.Gossip.Propagate.{Texts, connected_nodes, propagate_gossip_cross_thread}
use trin.Gossip.Propagate.Requests.{Has}
use trin.Gossip.Propagate.Offered.{IsRecipient, propagate_gossip_cross_thread_lem}
use trin.Gossip.Recipients.{IsChoice, Eligible, calculate_interested_enrs_lem}

abbrev first_byte : List ℕ → ℕ
first_byte [] = 0
first_byte (b ∷ l) = b

abbrev byte_env : Env ℕ ℕ ℕ
byte_env = record {
  choose_multiple = take;
  from_big_endian = first_byte;
  raw = λ n. n ∷ [];
  node_id = λ e. e;
  content_id = λ c. c ∷ [];
}

take-IsChoice : IsChoice {A = ℕ} take
take-IsChoice = record { length-choose = length-take; choose-All = All-take }

abbrev near_node : ℕ → Node ℕ ℕ
near_node n = record { id = n; enr = n; data_radius = 16 }

abbrev six_nodes : List (Node ℕ ℕ)
six_nodes = near_node 9 ∷ near_node 1 ∷ near_node 200 ∷ near_node 4 ∷ near_node 7 ∷ near_node 2 ∷ []

calculate_interested_enrs_lem_example :
    let recipients = calculate_interested_enrs byte_env 3 six_nodes in
    All (Eligible byte_env 3 six_nodes) recipients
    × (length recipients ≡ min 8 (length (interested_enrs byte_env 3 six_nodes)))
    × All
        (Served (enr_distance byte_env 3) (take 4 recipients))
        (interested_enrs byte_env 3 six_nodes)
calculate_interested_enrs_lem_example =
    calculate_interested_enrs_lem byte_env take-IsChoice 3 six_nodes

picked : calculate_interested_enrs byte_env 3 six_nodes ≡ 2 ∷ 1 ∷ 7 ∷ 4 ∷ 9 ∷ []
unfolding calculate_interested_enrs interested_enrs select_gossip_recipients sort_by insert_by
picked = refl

abbrev read_byte : List ℕ → Option ℕ
read_byte [] = none
read_byte (b ∷ l) = some b

abbrev byte_texts : Texts ℕ ℕ
byte_texts = record { to_base64 = λ e. e ∷ []; from_str = read_byte; raw_key = λ c. 0 ∷ c ∷ [] }

abbrev three_entries : List (Bool × Node ℕ ℕ)
three_entries = (true, near_node 9) ∷ (false, near_node 1) ∷ (true, near_node 4) ∷ []

propagate_gossip_cross_thread_lem_example :
    Has
      (propagate_gossip_cross_thread byte_env byte_texts three_entries
        ((3, 7 ∷ []) ∷ (5, 8 ∷ []) ∷ [])).1
      9
      (0 ∷ 3 ∷ [], 7 ∷ [])
    ↔ IsRecipient byte_env byte_texts
        (connected_nodes three_entries)
        ((3, 7 ∷ []) ∷ (5, 8 ∷ []) ∷ [])
        9
        (0 ∷ 3 ∷ [], 7 ∷ [])
propagate_gossip_cross_thread_lem_example =
    propagate_gossip_cross_thread_lem byte_env byte_texts three_entries
      ((3, 7 ∷ []) ∷ (5, 8 ∷ []) ∷ []) 9 (0 ∷ 3 ∷ [], 7 ∷ []) (λ e. refl)
