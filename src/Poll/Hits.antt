-- ===== src/Poll/Hits.antt =====
-- poll.c, the loop over the entries that poll(2) returned, in `_dstc_process_single_event`.
use dstc.Base.{
  ℕ, zero, suc, ◌≡◌, refl, ◌∙◌, sym, List, [], ◌∷◌, inl, inr, true, false, Bool-cases,
  if◌then◌else◌, Outcome, done, ◌>>=◌, >>=-cong,
}
use dstc.Epoll.{Io}
use dstc.Poll.{
  PollElem, Uthash, PollContext, Revents, has_revents, process_poll_result, process_hits,
}

-- How many of the entries have events.
unfoldable pub hits : List PollElem → List Revents → ℕ
hits (p ∷ pfds) (r ∷ revents) =
    let later = hits pfds revents in if has_revents r then suc later else later
hits _ _ = 0

module _ {Pub Sub H : Type 0} (hash : Uthash H) (io : Io (PollContext Pub Sub H)) where
  unfoldable pub process_entry :
      PollContext Pub Sub H → PollElem → Revents → Outcome (PollContext Pub Sub H)
  process_entry ctx p r = if has_revents r then process_poll_result hash io ctx p.fd r else done ctx

  -- Every entry with events, in order.
  unfoldable pub process_entries :
      PollContext Pub Sub H → List PollElem → List Revents → Outcome (PollContext Pub Sub H)
  process_entries ctx (p ∷ pfds) (r ∷ revents) =
      process_entry ctx p r >>= λ c. process_entries c pfds revents
  process_entries ctx _ _ = done ctx

  process_hits-zero :
      (ctx : PollContext Pub Sub H) (pfds : List PollElem) (revents : List Revents)
      → process_hits hash io ctx pfds revents 0 ≡ done ctx
  unfolding process_hits
  process_hits-zero ctx [] revents = refl
  process_hits-zero ctx (p ∷ pfds) [] = refl
  process_hits-zero ctx (p ∷ pfds) (r ∷ revents) = refl

  process_hits-skip :
      (ctx : PollContext Pub Sub H) (p : PollElem) (pfds : List PollElem) (r : Revents)
      (revents : List Revents) (n : ℕ)
      → has_revents r ≡ false
      → process_hits hash io ctx (p ∷ pfds) (r ∷ revents) n
        ≡ process_hits hash io ctx pfds revents n
  unfolding process_hits
  process_hits-skip ctx p pfds r revents zero quiet = sym (process_hits-zero ctx pfds revents)
  process_hits-skip ctx p pfds r revents (suc n) quiet = rw quiet

  process_hits-take :
      (ctx : PollContext Pub Sub H) (p : PollElem) (pfds : List PollElem) (r : Revents)
      (revents : List Revents) (n : ℕ)
      → has_revents r ≡ true
      → process_hits hash io ctx (p ∷ pfds) (r ∷ revents) (suc n)
        ≡ (process_poll_result hash io ctx p.fd r >>= λ c. process_hits hash io c pfds revents n)
  unfolding process_hits
  process_hits-take ctx p pfds r revents n some_event = rw some_event

  -- With the count of the entries that have events, as poll(2) returns it, the loop over the
  -- entries processes each of those, in order, and no other.
  pub process_hits-hits :
      (ctx : PollContext Pub Sub H) (pfds : List PollElem) (revents : List Revents)
      → process_hits hash io ctx pfds revents (hits pfds revents) ≡ process_entries ctx pfds revents
  unfolding process_entries process_entry hits
  process_hits-hits ctx [] revents = process_hits-zero ctx [] revents
  process_hits-hits ctx (p ∷ pfds) [] = process_hits-zero ctx (p ∷ pfds) []
  process_hits-hits ctx (p ∷ pfds) (r ∷ revents) = elim (Bool-cases (has_revents r)) [
    | inl some_event ↦ rw some_event (
        process_hits-take ctx p pfds r revents (hits pfds revents) some_event
        ∙ >>=-cong (process_poll_result hash io ctx p.fd r)
            (λ c. process_hits hash io c pfds revents (hits pfds revents))
            (λ c. process_entries c pfds revents) (λ c. process_hits-hits c pfds revents))
    | inr quiet ↦ rw quiet (
        process_hits-skip ctx p pfds r revents (hits pfds revents) quiet
        ∙ process_hits-hits ctx pfds revents)
  ]
