-- ===== src/Identity/Link/Progress.antt =====
-- src/identity/core/link.cpp: no history links an external identity without its verification.
use openproof.Base.{◌≡◌, ◌↔◌, refl, Bool, true, false, List, [], ◌∷◌, arith, ltb, if◌then◌else◌}
use openproof.Foundation.{Instant}
use openproof.Identity.Link.{
  IdentityLink, LinkState, link_requested, verification_required, verified, linked, rejected,
  expired, revoked, is_permitted_transition, transition_to, require_verification, mark_verified,
  complete, reject, revoke, expire, is_terminal_link_state,
}

pub data Event : Type 0 where
  requires verifies completes rejects revokes expires : Instant → Event

unfoldable pub step : IdentityLink → Event → IdentityLink
step l (requires now) = (require_verification l now).0
step l (verifies now) = (mark_verified l now).0
step l (completes now) = (complete l now).0
step l (rejects now) = (reject l now).0
step l (revokes now) = (revoke l now).0
step l (expires now) = (expire l now).0

unfoldable pub run : IdentityLink → List Event → IdentityLink
run l [] = l
run l (e ∷ es) = run (step l e) es

-- The three steps of a link, in the order in which they are due.
pub data Stage : Type 0 where
  requirement verification completion : Stage

-- The event is the stage, and comes before the deadline.
is_stage : Instant → Stage → Event → Bool
is_stage deadline requirement (requires now) = ltb now deadline
is_stage deadline verification (verifies now) = ltb now deadline
is_stage deadline completion (completes now) = ltb now deadline
is_stage deadline _ _ = false

-- The stages occur in the history, in order, each before the deadline.
unfoldable pub passes : Instant → List Stage → List Event → Bool
unfolding is_stage
passes deadline [] es = true
passes deadline (k ∷ ks) [] = false
passes deadline (k ∷ ks) (e ∷ es) =
    if is_stage deadline k e then passes deadline ks es else passes deadline (k ∷ ks) es

-- The stages that lie ahead of a state on its way to `linked`.
stages_left : LinkState → List Stage
stages_left link_requested = requirement ∷ verification ∷ completion ∷ []
stages_left verification_required = verification ∷ completion ∷ []
stages_left verified = completion ∷ []
stages_left _ = []

is_linkable : LinkState → Bool
is_linkable rejected = false
is_linkable expired = false
is_linkable revoked = false
is_linkable _ = true

passes-step :
    (l : IdentityLink) (e : Event) (es : List Event)
    → is_linkable (step l e).state ≡ true
    → passes l.expires_at (stages_left (step l e).state) es ≡ true
    → passes l.expires_at (stages_left l.state) (e ∷ es) ≡ true
unfolding passes stages_left is_linkable step require_verification mark_verified complete reject
    revoke expire transition_to
passes-step l (requires now) es a h = ground arith
passes-step l (verifies now) es a h = ground arith
passes-step l (completes now) es a h = ground arith
passes-step l (rejects now) es a h = ground arith
passes-step l (revokes now) es a h = ground arith
passes-step l (expires now) es a h = ground arith

step-keeps :
    (l : IdentityLink) (e : Event)
    → ((step l e).expires_at ≡ l.expires_at)
      × (is_linkable (step l e).state ≡ true → is_linkable l.state ≡ true)
unfolding is_linkable step require_verification mark_verified complete reject revoke expire
    transition_to
step-keeps l (requires now) = (ground arith, ground arith)
step-keeps l (verifies now) = (ground arith, ground arith)
step-keeps l (completes now) = (ground arith, ground arith)
step-keeps l (rejects now) = (ground arith, ground arith)
step-keeps l (revokes now) = (ground arith, ground arith)
step-keeps l (expires now) = (ground arith, ground arith)

run-passes :
    (l : IdentityLink) (es : List Event)
    → (run l es).state ≡ linked
    → (is_linkable l.state ≡ true) × (passes l.expires_at (stages_left l.state) es ≡ true)
unfolding run
run-passes l [] h = (rw h (unfold is_linkable in refl), rw h (unfold stages_left passes in refl))
run-passes l (e ∷ es) h = extend (run-passes (step l e) es h)
  where
    extend :
        (is_linkable (step l e).state ≡ true)
          × (passes (step l e).expires_at (stages_left (step l e).state) es ≡ true)
        → (is_linkable l.state ≡ true) × (passes l.expires_at (stages_left l.state) (e ∷ es) ≡ true)
    extend (a, p) = ((step-keeps l e).1 a, passes-step l e es a (rw ((step-keeps l e).0) at p))

step-keeps_subject :
    (l : IdentityLink) (e : Event)
    → ((step l e).owner ≡ l.owner) × ((step l e).external ≡ l.external)
unfolding step require_verification mark_verified complete reject revoke expire transition_to
step-keeps_subject l (requires now) = (ground arith, ground arith)
step-keeps_subject l (verifies now) = (ground arith, ground arith)
step-keeps_subject l (completes now) = (ground arith, ground arith)
step-keeps_subject l (rejects now) = (ground arith, ground arith)
step-keeps_subject l (revokes now) = (ground arith, ground arith)
step-keeps_subject l (expires now) = (ground arith, ground arith)

pub run-keeps :
    (l : IdentityLink) (es : List Event)
    → ((run l es).owner ≡ l.owner) × ((run l es).external ≡ l.external)
unfolding run
run-keeps l [] = (refl, refl)
run-keeps l (e ∷ es) = ground (arith, step-keeps_subject l e, run-keeps (step l e) es)

-- A new link that a history brings to `linked` has had its verification required, then passed,
-- and then been completed, each of the three before the deadline of the request.
pub run-linked :
    (l : IdentityLink) (es : List Event)
    → l.state ≡ link_requested
    → (run l es).state ≡ linked
    → passes l.expires_at (requirement ∷ verification ∷ completion ∷ []) es ≡ true
unfolding stages_left
run-linked l es start h = rw start at ((run-passes l es h).1)

step-terminal :
    (l : IdentityLink) (e : Event) → is_terminal_link_state l.state ≡ true → step l e ≡ l
unfolding is_terminal_link_state step require_verification mark_verified complete reject revoke
    expire transition_to
step-terminal l (requires now) h = ground arith
step-terminal l (verifies now) h = ground arith
step-terminal l (completes now) h = ground arith
step-terminal l (rejects now) h = ground arith
step-terminal l (revokes now) h = ground arith
step-terminal l (expires now) h = ground arith

-- A state is terminal exactly if the table permits no transition out of it.
pub is_terminal_link_state-permits :
    (s : LinkState)
    → (is_terminal_link_state s ≡ true) ↔ ((t : LinkState) → is_permitted_transition s t ≡ false)
unfolding is_terminal_link_state is_permitted_transition
is_terminal_link_state-permits link_requested = (λ h. cc, λ h. cc (h rejected))
is_terminal_link_state-permits verification_required = (λ h. cc, λ h. cc (h rejected))
is_terminal_link_state-permits verified = (λ h. cc, λ h. cc (h rejected))
is_terminal_link_state-permits linked = (λ h. cc, λ h. cc (h revoked))
is_terminal_link_state-permits rejected = (λ h t. refl, λ h. refl)
is_terminal_link_state-permits expired = (λ h t. refl, λ h. refl)
is_terminal_link_state-permits revoked = (λ h t. refl, λ h. refl)

-- No event changes a link that is rejected, expired or revoked.
pub run-terminal :
    (l : IdentityLink) (es : List Event) → is_terminal_link_state l.state ≡ true → run l es ≡ l
unfolding run
run-terminal l [] h = refl
run-terminal l (e ∷ es) h = rw (step-terminal l e h) (run-terminal l es h)
