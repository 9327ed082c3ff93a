-- ===== src/Tests/Content.antt =====
-- FindContentQuery at concrete peers.
use trin.Prelude.{
  ℕ, suc, ◌≤◌, ◌≡◌, ◌==◌, refl, Option, none, some, false, true, List, [], ◌∷◌, arith, length, ◌⊎◌,
}
use trin.BTreeMap.{get}
use trin.Find.Query.{QueryPeer, is_finished, waiting_on, done, iterating, finished, succeeded}
use trin.Find.ClosestPeers.{at_capacity, scan, visit, Peers}
use trin.Find.ClosestPeers.Exits.{AllSettled, Contacts, count_untouched}
use trin.Find.ClosestPeers.Completion.{Satisfied}
use trin.Find.ClosestPeers.Chosen.{Ranked, Among, Crowded}
use trin.Find.FindContent.{
  FindContentQuery, ContentAndPeer, closest_nodes, content, connection_id, nodes, found,
  with_config, poll, on_success,
}
use trin.Find.FindContent.Results.{get_nodes_to_poke, into_result}
use trin.Find.FindContent.Valid.{IsValid}
use trin.Find.FindContent.Polls.{content_poll-Contacts, content_poll_done, content_poll_settled}
use trin.Find.FindContent.Answers.{
  Excludes, get_nodes_to_poke_lem, into_result_nodes, content_delivered,
}
use trin.Find.FindContent.Runs.{
  Call, starts, fails, succeeds, polls, run, RunsFrom, content_run-with_config,
}
use trin.Tests.{
  number_space, number_space-IsKeySpace, small_config, two_new, one_waiting, all_settled,
}

abbrev no_content : Option (ContentAndPeer ℕ)
no_content = none

abbrev query : Peers ℕ → ℕ → FindContentQuery ℕ ℕ
query m w = record {
  target_key = 0;
  started = none;
  progress = iterating 0;
  closest_peers = m;
  content = none;
  num_waiting = w;
  config = small_config;
}

abbrev ended : FindContentQuery ℕ ℕ
ended = record (query all_settled 0) { progress = finished }

two_new-IsValid : IsValid number_space (query two_new 0)
two_new-IsValid = record {
  counts = refl;
  sorted = (omega arith, (omega arith, tt));
  placed = (refl, (refl, tt));
  within = omega arith;
}

one_waiting-IsValid : IsValid number_space (query one_waiting 1)
one_waiting-IsValid = record {
  counts = refl;
  sorted = (omega arith, (omega arith, tt));
  placed = (refl, (refl, tt));
  within = omega arith;
}

all_settled-IsValid : IsValid number_space (query all_settled 0)
all_settled-IsValid = record {
  counts = refl;
  sorted = (omega arith, (omega arith, (omega arith, tt)));
  placed = (refl, (refl, (refl, tt)));
  within = omega arith;
}

contact_first :
    poll number_space (query two_new 0) 0 ≡ some (waiting_on (some 1), query one_waiting 1)
unfolding poll scan visit at_capacity
contact_first = refl

all_done : poll number_space (query all_settled 0) 0 ≡ some (done, ended)
unfolding poll scan visit at_capacity
all_done = refl

abbrev calls : List (Call ℕ)
calls =
    starts 0
    ∷ polls 0
    ∷ succeeds 1 (closest_nodes (2 ∷ 9 ∷ []))
    ∷ polls 6
    ∷ fails 2
    ∷ polls 7
    ∷ succeeds 3 (connection_id 258)
    ∷ polls 8
    ∷ []

content_run-with_config_example :
    RunsFrom number_space
      (with_config number_space small_config 0 (1 ∷ 3 ∷ []))
      (run number_space (with_config number_space small_config 0 (1 ∷ 3 ∷ [])) calls)
content_run-with_config_example =
    content_run-with_config number_space number_space-IsKeySpace small_config 0 (1 ∷ 3 ∷ []) calls
      (omega arith)

content_poll-Contacts_example :
    Contacts number_space small_config 0 1 two_new one_waiting
    × (no_content ≡ none)
    × (at_capacity small_config (iterating 0) 0 ≡ false)
    × (count_untouched two_new ≡ suc (count_untouched one_waiting))
content_poll-Contacts_example =
    content_poll-Contacts number_space (query two_new 0) (query one_waiting 1) 0 1 two_new-IsValid
      contact_first

content_poll_done_example :
    (((c : ContentAndPeer ℕ) × (no_content ≡ some c))
      ⊎ Satisfied 2 all_settled
      ⊎ AllSettled all_settled)
    × (finished ≡ finished)
content_poll_done_example =
    content_poll_done number_space (query all_settled 0) ended 0 all_settled-IsValid (omega arith)
      refl all_done

content_poll_settled_example :
    (q' : FindContentQuery ℕ ℕ) × (poll number_space (query all_settled 0) 0 ≡ some (done, q'))
    × (is_finished q'.progress ≡ true)
content_poll_settled_example =
    content_poll_settled number_space (query all_settled 0) 0 all_settled-IsValid (omega arith)
      (omega arith, (omega arith, (omega arith, tt)))

get_nodes_to_poke_lem_example :
    let pokes = get_nodes_to_poke number_space ◌==◌ (query all_settled 0) 3 in
    Ranked number_space all_settled 0 pokes
    × Excludes number_space ◌==◌ 3 pokes
    × (length pokes ≤ 2)
get_nodes_to_poke_lem_example =
    get_nodes_to_poke_lem number_space ◌==◌ (query all_settled 0) 3 all_settled-IsValid

into_result_nodes_example :
    (l : List ℕ) × (into_result number_space ◌==◌ (query all_settled 0) ≡ nodes l)
    × Ranked number_space all_settled 0 l
    × (length l ≤ 2)
    × ((d : ℕ) (p : QueryPeer ℕ)
        → get d all_settled ≡ some p
        → p.state ≡ succeeded
        → Among number_space p.key l ⊎ Crowded number_space all_settled d 2 l)
into_result_nodes_example =
    into_result_nodes number_space ◌==◌ (query all_settled 0) all_settled-IsValid refl

content_delivered_example :
    (q' : FindContentQuery ℕ ℕ) × (q'' : FindContentQuery ℕ ℕ) × (pokes : List ℕ) × (on_success
        number_space
        (query one_waiting 1)
        1
        (content (7 ∷ []))
      ≡ some q')
    × (poll number_space q' 0 ≡ some (done, q''))
    × (into_result number_space ◌==◌ q'' ≡ found (7 ∷ []) pokes)
    × Excludes number_space ◌==◌ 1 pokes
unfolding get
content_delivered_example =
    content_delivered number_space ◌==◌ (query one_waiting 1) 1 (7 ∷ []) _ 5 0 one_waiting-IsValid
      refl refl refl
