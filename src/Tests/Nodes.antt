-- ===== src/Tests/Nodes.antt =====
-- FindNodeQuery at concrete peers.
use trin.Prelude.{
  ℕ, suc, ◌≡◌, refl, none, some, false, true, List, [], ◌∷◌, ◌++◌, arith, length, ◌⊎◌,
}
use trin.BTreeMap.{get}
use trin.Find.Query.{
  QueryPeer, is_finished, waiting_on, done, iterating, finished, succeeded, failed,
}
use trin.Find.ClosestPeers.{Peers, at_capacity, update_progress, scan, visit}
use trin.Find.ClosestPeers.Exits.{AllSettled, Contacts, count_untouched}
use trin.Find.ClosestPeers.Completion.{Satisfied, enough, one_more, passed}
use trin.Find.ClosestPeers.Chosen.{Ranked, Among, Crowded}
use trin.Find.FindNodes.{FindNodeQuery, with_config, poll, into_result, on_success}
use trin.Find.FindNodes.Valid.{IsValid}
use trin.Find.FindNodes.Polls.{poll-Contacts, poll_done, poll_settled}
use trin.Find.FindNodes.Answers.{into_result_lem, length-into_result-Satisfied}
use trin.Find.FindNodes.Runs.{Call, starts, fails, succeeds, polls, run, RunsFrom, run-with_config}
use trin.Find.FindNodes.Final.{run_final}
use trin.Find.FindNodes.LastPeer.{on_success_last}
use trin.Tests.{
  number_space, number_space-IsKeySpace, small_config, two_new, one_waiting, all_settled,
}

abbrev query : Peers ℕ → ℕ → FindNodeQuery ℕ
query m w = record {
  target_key = 0;
  started = none;
  progress = iterating 0;
  closest_peers = m;
  num_waiting = w;
  config = small_config;
}

abbrev ended : FindNodeQuery ℕ
ended = record (query all_settled 0) { progress = finished }

two_new-IsValid : IsValid number_space (query two_new 0)
two_new-IsValid = record {
  counts = refl;
  sorted = (omega arith, (omega arith, tt));
  placed = (refl, (refl, tt));
  within = omega arith;
}

one_waiting-IsValid : IsValid number_space (query one_waiting 1)
one_waiting-IsValid = record {
  counts = refl;
  sorted = (omega arith, (omega arith, tt));
  placed = (refl, (refl, tt));
  within = omega arith;
}

all_settled-IsValid : IsValid number_space (query all_settled 0)
all_settled-IsValid = record {
  counts = refl;
  sorted = (omega arith, (omega arith, (omega arith, tt)));
  placed = (refl, (refl, (refl, tt)));
  within = omega arith;
}

contact_first :
    poll number_space (query two_new 0) 0 ≡ some (waiting_on (some 1), query one_waiting 1)
unfolding poll scan visit at_capacity
contact_first = refl

all_done : poll number_space (query all_settled 0) 0 ≡ some (done, ended)
unfolding poll scan visit at_capacity
all_done = refl

abbrev calls : List (Call ℕ)
calls = starts 0 ∷ polls 0 ∷ polls 0 ∷ succeeds 1 (2 ∷ 9 ∷ []) ∷ polls 6 ∷ fails 2 ∷ polls 7 ∷ []

run-with_config_example :
    RunsFrom number_space
      (with_config number_space small_config 0 (1 ∷ 3 ∷ []))
      (run number_space (with_config number_space small_config 0 (1 ∷ 3 ∷ [])) calls)
run-with_config_example =
    run-with_config number_space number_space-IsKeySpace small_config 0 (1 ∷ 3 ∷ []) calls
      (omega arith)

poll-Contacts_example :
    Contacts number_space small_config 0 1 two_new one_waiting
    × (at_capacity small_config (iterating 0) 0 ≡ false)
    × (count_untouched two_new ≡ suc (count_untouched one_waiting))
poll-Contacts_example =
    poll-Contacts number_space (query two_new 0) (query one_waiting 1) 0 1 two_new-IsValid
      contact_first

poll_done_example : (Satisfied 2 all_settled ⊎ AllSettled all_settled) × (finished ≡ finished)
poll_done_example =
    poll_done number_space (query all_settled 0) ended 0 all_settled-IsValid (omega arith) refl
      all_done

poll_settled_example :
    (q' : FindNodeQuery ℕ) × (poll number_space (query all_settled 0) 0 ≡ some (done, q'))
    × (is_finished q'.progress ≡ true)
poll_settled_example =
    poll_settled number_space (query all_settled 0) 0 all_settled-IsValid (omega arith)
      (omega arith, (omega arith, (omega arith, tt)))

into_result_lem_example :
    let l = into_result number_space (query all_settled 0) in
    Ranked number_space all_settled 0 l
    × ((d : ℕ) (p : QueryPeer ℕ)
        → get d all_settled ≡ some p
        → p.state ≡ succeeded
        → Among number_space p.key l ⊎ Crowded number_space all_settled d 2 l)
into_result_lem_example = into_result_lem number_space (query all_settled 0) all_settled-IsValid

settled-Satisfied : Satisfied 2 all_settled
settled-Satisfied =
    one_more 1 1 _ _ refl
      (passed 1 2 _ _ (λ e. cc) (omega arith) (one_more 0 3 _ _ refl (enough [])))

two_results : length (into_result number_space (query all_settled 0)) ≡ 2
two_results = length-into_result-Satisfied number_space (query all_settled 0) settled-Satisfied

on_success_last_example :
    (q' : FindNodeQuery ℕ) × (on_success number_space (query one_waiting 1) 1 ((2 ∷ []) ++ 9 ∷ [])
      ≡ some q')
    × (q'.progress ≡ update_progress small_config false (iterating 0))
unfolding get
on_success_last_example =
    on_success_last number_space (query one_waiting 1) 1 (2 ∷ []) 9 _ 5 1 _ one_waiting-IsValid refl
      refl refl refl (omega arith) (omega arith)

run_final_example :
    (q' : FindNodeQuery ℕ) × (run number_space (query all_settled 0) calls ≡ some q')
    × (p' : QueryPeer ℕ) × (get 2 q'.closest_peers ≡ some p')
    × (p'.state ≡ failed)
unfolding get
run_final_example =
    run_final number_space number_space-IsKeySpace (query all_settled 0) calls 2 _
      all_settled-IsValid (omega arith) refl refl
