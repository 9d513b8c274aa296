-- ===== src/Tests/PollExamples.antt =====
-- A hash table for the tests of the poll build, and each theorem on that build at a concrete input.
use dstc.Base.{
  ℕ, ◌≡◌, refl, true, false, List, [], ◌∷◌, ◌++◌, Option, none, some, arith, length, take, ltb,
  ◌==◌, if◌then◌else◌, done, Option-cases, inl, inr,
}
use dstc.Context.{default_context, lock_context, unlock_context}
use dstc.Epoll.{Action, Io}
use dstc.Poll.{
  free_elem, Uthash, PollContext, Revents, lock, unlock, elem_at, find_free, fill_elem, add_unknown,
  poll_add, remove_known, poll_remove, process_hits, poll_vector,
}
use dstc.Poll.Laws.{
  HashLaws, IsPollValid, watched, watched-poll_add, watched-poll_remove, poll_add-IsPollValid,
}
use dstc.Poll.Hits.{hits, process_entries, process_hits-hits}
use dstc.Poll.Setup.{Activation}
use dstc.Poll.Vector.{enomem, retrieve_pollfd_vector, retrieve_pollfd_vector_lem}
use dstc.Tests.Network.{TestPub, TestSub, test_rmc, test_sys, fresh}

abbrev TestHash : Type 0
TestHash = (ℕ → Option ℕ) × List ℕ

abbrev without : ℕ → Option ℕ → Option ℕ
without i none = none
without i (some j) = if i == j then none else some j

abbrev removed : ℕ → List ℕ → List ℕ
removed i [] = []
removed i (j ∷ js) = let later = removed i js in if i == j then later else j ∷ later

abbrev test_hash : Uthash TestHash
test_hash = record {
  empty = ((λ k. none), []);
  find = λ h k. h.0 k;
  add = λ h k i. ((λ k'. if k == k' then some i else h.0 k'), h.1 ++ i ∷ []);
  del = λ h i. ((λ k. without i (h.0 k)), removed i h.1);
  elems = λ h. h.1;
}

test_hash-HashLaws : HashLaws test_hash
test_hash-HashLaws = record {
  find-add = λ h k i k' e. refl;
  find-del = λ h k i k' there alone. elim (Option-cases (h.0 k')) [
    | inl none_there ↦ rw none_there (ground arith)
    | inr (j, other) ↦ rw other (ground (arith, alone k', there, other))
  ];
}

abbrev reading : Action
reading = record { poll_read = true; poll_write = false }

abbrev no_descriptors : PollContext TestPub TestSub TestHash
no_descriptors = record {
  base = fresh;
  poll_elem_array = free_elem ∷ free_elem ∷ [];
  poll_hash = test_hash.empty;
}

abbrev one_descriptor : PollContext TestPub TestSub TestHash
one_descriptor = record no_descriptors {
  poll_elem_array = record { fd = some 5; events = reading; user_data = 9 } ∷ free_elem ∷ [];
  poll_hash = test_hash.add test_hash.empty 5 0;
}

abbrev removed_descriptor : PollContext TestPub TestSub TestHash
removed_descriptor = record no_descriptors {
  poll_elem_array = record free_elem { user_data = 9 } ∷ free_elem ∷ [];
  poll_hash = test_hash.del one_descriptor.poll_hash 0;
}

no_descriptors-IsPollValid : IsPollValid test_hash no_descriptors
unfolding IsPollValid
no_descriptors-IsPollValid = λ d i e. cc

poll_add_run : poll_add test_hash no_descriptors 5 9 reading ≡ done one_descriptor
unfolding poll_add add_unknown fill_elem find_free lock unlock lock_context unlock_context
    default_context
poll_add_run = refl

poll_remove_run : poll_remove test_hash one_descriptor 5 ≡ done removed_descriptor
unfolding poll_remove remove_known elem_at lock unlock lock_context unlock_context default_context
poll_remove_run = refl

watched-poll_add_example : watched test_hash one_descriptor 7 ≡ (
    if 5 == 7
    then some (record { fd = some 5; events = reading; user_data = 9 })
    else watched test_hash no_descriptors 7)
watched-poll_add_example =
    watched-poll_add test_hash test_hash-HashLaws no_descriptors 5 9 reading {ctx' = one_descriptor}
      7 no_descriptors-IsPollValid poll_add_run

one_descriptor-IsPollValid : IsPollValid test_hash one_descriptor
one_descriptor-IsPollValid =
    poll_add-IsPollValid test_hash test_hash-HashLaws no_descriptors 5 9 reading
      {ctx' = one_descriptor} no_descriptors-IsPollValid poll_add_run

watched-poll_remove_example :
    watched test_hash removed_descriptor 5
    ≡ (if 5 == 5 then none else watched test_hash one_descriptor 5)
watched-poll_remove_example =
    watched-poll_remove test_hash test_hash-HashLaws one_descriptor 5 {ctx' = removed_descriptor} 5
      one_descriptor-IsPollValid poll_remove_run

abbrev poll_io : Io (PollContext TestPub TestSub TestHash)
poll_io = record {
  pub_read = λ i c. done c;
  sub_read = λ i c. done (record c { poll_elem_array = [] });
  pub_write = λ i c. done (0, c);
  sub_write = λ i c. done (0, c);
  pub_close_connection = λ i c. done c;
  sub_close_connection = λ i c. done c;
  pub_timeout_process = λ c. done (0, c);
  sub_timeout_process = λ c. done (0, c);
}

abbrev readable : List Revents
readable = record { pollin = true; pollout = false; other = false } ∷ []

process_hits-hits_example :
    process_hits test_hash poll_io one_descriptor one_descriptor.poll_elem_array readable
      (hits one_descriptor.poll_elem_array readable)
    ≡ process_entries test_hash poll_io one_descriptor one_descriptor.poll_elem_array readable
process_hits-hits_example =
    process_hits-hits test_hash poll_io one_descriptor one_descriptor.poll_elem_array readable

abbrev no_activation : Activation (PollContext TestPub TestSub TestHash)
no_activation = record { pub_activate = λ c. done c; sub_activate = λ c. done c }

-- One descriptor does not fit an array of no entries.
retrieve_pollfd_vector_lem_example :
    retrieve_pollfd_vector test_hash test_rmc no_activation test_sys one_descriptor 0 ≡ (
      let entries = take 0 (poll_vector test_hash poll_io one_descriptor) in
      if ltb 0 (length (poll_vector test_hash poll_io one_descriptor))
      then done (enomem, record { result = entries; stored_result = none }, one_descriptor)
      else done
          (0, record { result = entries; stored_result = some (length entries) }, one_descriptor))
retrieve_pollfd_vector_lem_example =
    retrieve_pollfd_vector_lem test_hash test_rmc no_activation test_sys poll_io one_descriptor 0
      refl
