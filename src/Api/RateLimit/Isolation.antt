-- ===== src/Api/RateLimit/Isolation.antt =====
-- internal/api/ratelimit.go: one client among others.
use openclaw_cortex.Base.{
  ℕ, String, Bool, true, false, not, ◌&&◌, Option, some, List, [], ◌∷◌, ◌≡◌, refl, sym, ap, subst,
  ◌∙◌, arith, if◌then◌else◌, keep, Bool-cases, inl, inr, Map, Distinct, only, lookup, lookup-insert,
  lookup-restrict, Distinct-insert, Distinct-restrict, str_eq, eq_iff,
}
use openclaw_cortex.Api.RateLimit.{
  Limiting, Visitor, Event, request, tick, exempt_path, host_of, limiter_of, allowed, is_recent,
  purge, serve_limited, handle_event,
}

module _ {L : Type 0} (lim : Limiting L) (cut_last : String → Option String) (ip : String) where
  -- A request of this client that takes a token.
  abbrev is_own : String → String → Bool
  is_own path address = not (exempt_path path) && str_eq (host_of cut_last address) ip

  abbrev pub concerns : Event → Bool
  concerns (request now path address) = is_own path address
  concerns (tick now) = true

  -- The answers to this client's requests.
  abbrev pub answer : Event → Map (Visitor L) → List Bool → List Bool
  answer (request now path address) visitors later =
      if is_own path address
      then (serve_limited lim cut_last now path address visitors).1 ∷ later
      else later
  answer (tick now) visitors later = later

  unfoldable pub answers : List Event → Map (Visitor L) → List Bool
  unfolding handle_event
  answers [] visitors = []
  answers (event ∷ events) visitors =
      answer event visitors (answers events (handle_event lim cut_last event visitors))

  Distinct-handle_event :
      (event : Event) (visitors : Map (Visitor L))
      → Distinct visitors
      → Distinct (handle_event lim cut_last event visitors)
  unfolding handle_event serve_limited allowed purge
  Distinct-handle_event (request now path address) visitors d =
      elim (Bool-cases (exempt_path path)) [
        | inl e ↦ rw (e, handle_event) d
        | inr e ↦ rw (e, handle_event) (Distinct-insert (host_of cut_last address) _ visitors d)
      ]
  Distinct-handle_event (tick now) visitors d =
      Distinct-restrict (is_recent lim cut_last now) visitors d

  -- An event that does not concern the client.
  lookup-handle_event_other :
      (event : Event) (visitors : Map (Visitor L))
      → concerns event ≡ false
      → lookup ip (handle_event lim cut_last event visitors) ≡ lookup ip visitors
  unfolding handle_event serve_limited allowed
  lookup-handle_event_other (request now path address) visitors other =
      elim (Bool-cases (exempt_path path)) [
        | inl e ↦ rw (e, handle_event) refl
        | inr e ↦
            rw (e, handle_event)
              (lookup-insert (host_of cut_last address) ip _ visitors ∙ ground (arith, other, e))
      ]
  lookup-handle_event_other (tick now) visitors other = cc

  abbrev seen : ℕ → Option (Visitor L) → Visitor L
  seen now v = record { limiter = (lim.allow now (limiter_of lim cut_last v)).0; last_seen = now }

  lookup-allowed :
      (now : ℕ) (host : String) (visitors : Map (Visitor L))
      → host ≡ ip
      → lookup ip (allowed lim cut_last now host visitors).0 ≡ some (seen now (lookup ip visitors))
  unfolding allowed
  lookup-allowed now host visitors its =
      ap (λ k. lookup ip (allowed lim cut_last now k visitors).0) its
      ∙ lookup-insert ip ip _ visitors
      ∙ ground (arith, eq_iff ip ip)

  -- An event that does, where the client is known alike.
  lookup-handle_event_own :
      (event : Event) (one two : Map (Visitor L))
      → concerns event ≡ true
      → Distinct one
      → Distinct two
      → lookup ip one ≡ lookup ip two
      → lookup ip (handle_event lim cut_last event one)
        ≡ lookup ip (handle_event lim cut_last event two)
  unfolding handle_event serve_limited allowed purge
  lookup-handle_event_own (request now path address) one two own d e same =
      let host = host_of cut_last address in
      let counted : exempt_path path ≡ false = ground (arith, own) in
      let its : host ≡ ip = (eq_iff host ip).0 (ground (arith, own)) in
      rw (counted, handle_event)
        (lookup-allowed now host one its
          ∙ ap (λ o. some (seen now o)) same
          ∙ sym (lookup-allowed now host two its))
  lookup-handle_event_own (tick now) one two own d e same =
      lookup-restrict (is_recent lim cut_last now) ip one d
      ∙ ap (only (is_recent lim cut_last now)) same
      ∙ sym (lookup-restrict (is_recent lim cut_last now) ip two e)

  answer_alike :
      (event : Event) (one two : Map (Visitor L)) (later : List Bool)
      → concerns event ≡ true
      → lookup ip one ≡ lookup ip two
      → answer event one later ≡ answer event two later
  unfolding serve_limited allowed
  answer_alike (request now path address) one two later own same =
      let host = host_of cut_last address in
      let counted : exempt_path path ≡ false = ground (arith, own) in
      let its : host ≡ ip = (eq_iff host ip).0 (ground (arith, own)) in
      let known : lookup host one ≡ lookup host two =
        subst (λ k. lookup k one ≡ lookup k two) (sym its) same in
      rw (own, answer)
        (rw (counted, serve_limited)
          (ap (λ o. (lim.allow now (limiter_of lim cut_last o)).1 ∷ later) known))
  answer_alike (tick now) one two later own same = refl

  answer_none :
      (event : Event) (visitors : Map (Visitor L)) (later : List Bool)
      → concerns event ≡ false
      → answer event visitors later ≡ later
  answer_none (request now path address) visitors later other = rw (other, answer) refl
  answer_none (tick now) visitors later other = refl

  -- A client of the rate limiter gets the same answers to its requests whatever other clients ask
  -- for in between, with the purges at the same times.
  pub answers-keep :
      (events : List Event) (one two : Map (Visitor L))
      → Distinct one
      → Distinct two
      → lookup ip one ≡ lookup ip two
      → answers events one ≡ answers (keep concerns events) two
  unfolding answers
  answers-keep [] one two d e same = refl
  answers-keep (event ∷ events) one two d e same = elim (Bool-cases (concerns event)) [
    | inl own ↦ rw own (
        answer_alike event one two _ own same
        ∙ ap (answer event two) (
            answers-keep events (handle_event lim cut_last event one)
              (handle_event lim cut_last event two) (Distinct-handle_event event one d)
              (Distinct-handle_event event two e)
              (lookup-handle_event_own event one two own d e same)))
    | inr other ↦ rw other (
        answer_none event one _ other
        ∙ answers-keep events (handle_event lim cut_last event one) two
            (Distinct-handle_event event one d) e
            (lookup-handle_event_other event one other ∙ same))
  ]
