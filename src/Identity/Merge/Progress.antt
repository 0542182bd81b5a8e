-- ===== src/Identity/Merge/Progress.antt =====
-- src/identity/core/merge.cpp: no history applies a merge that was not verified.
use openproof.Base.{◌≡◌, refl, Bool, true, false, List, [], ◌∷◌, arith, ltb, if◌then◌else◌}
use openproof.Foundation.{Instant}
use openproof.Identity.Merge.{
  IdentityMerge, MergeState, requested, verification_required, verified, applied, rejected, expired,
  transition_to, require_verification, mark_verified, mark_applied, reject, expire,
}

pub data Event : Type 0 where
  requires verifies applies rejects expires : Instant → Event

unfoldable pub step : IdentityMerge → Event → IdentityMerge
step m (requires now) = (require_verification m now).0
step m (verifies now) = (mark_verified m now).0
step m (applies now) = (mark_applied m now).0
step m (rejects now) = (reject m now).0
step m (expires now) = (expire m now).0

unfoldable pub run : IdentityMerge → List Event → IdentityMerge
run m [] = m
run m (e ∷ es) = run (step m e) es

-- The steps of a merge, in the order in which they are due.
pub data Stage : Type 0 where
  requirement verification application : Stage

is_stage : Instant → Stage → Event → Bool
is_stage deadline requirement (requires now) = ltb now deadline
is_stage deadline verification (verifies now) = ltb now deadline
is_stage deadline application (applies now) = ltb now deadline
is_stage deadline _ _ = false

-- The stages occur in the history, in order, each before the deadline.
unfoldable pub passes : Instant → List Stage → List Event → Bool
unfolding is_stage
passes deadline [] es = true
passes deadline (k ∷ ks) [] = false
passes deadline (k ∷ ks) (e ∷ es) =
    if is_stage deadline k e then passes deadline ks es else passes deadline (k ∷ ks) es

stages_left : MergeState → List Stage
stages_left requested = requirement ∷ verification ∷ application ∷ []
stages_left verification_required = verification ∷ application ∷ []
stages_left verified = application ∷ []
stages_left _ = []

is_open : MergeState → Bool
is_open rejected = false
is_open expired = false
is_open _ = true

passes-step :
    (m : IdentityMerge) (e : Event) (es : List Event)
    → is_open (step m e).state ≡ true
    → passes m.expires_at (stages_left (step m e).state) es ≡ true
    → (is_open m.state ≡ true) × (passes m.expires_at (stages_left m.state) (e ∷ es) ≡ true)
unfolding passes stages_left is_open step require_verification mark_verified mark_applied reject
    expire transition_to
passes-step m (requires now) es a h = (ground arith, ground arith)
passes-step m (verifies now) es a h = (ground arith, ground arith)
passes-step m (applies now) es a h = (ground arith, ground arith)
passes-step m (rejects now) es a h = (ground arith, ground arith)
passes-step m (expires now) es a h = (ground arith, ground arith)

step-keeps : (m : IdentityMerge) (e : Event) → (step m e).expires_at ≡ m.expires_at
unfolding step require_verification mark_verified mark_applied reject expire transition_to
step-keeps m (requires now) = ground arith
step-keeps m (verifies now) = ground arith
step-keeps m (applies now) = ground arith
step-keeps m (rejects now) = ground arith
step-keeps m (expires now) = ground arith

run-passes :
    (m : IdentityMerge) (es : List Event)
    → (run m es).state ≡ applied
    → (is_open m.state ≡ true) × (passes m.expires_at (stages_left m.state) es ≡ true)
unfolding run
run-passes m [] h = (rw h (unfold is_open in refl), rw h (unfold stages_left passes in refl))
run-passes m (e ∷ es) h = extend (run-passes (step m e) es h)
  where
    extend :
        (is_open (step m e).state ≡ true)
          × (passes (step m e).expires_at (stages_left (step m e).state) es ≡ true)
        → (is_open m.state ≡ true) × (passes m.expires_at (stages_left m.state) (e ∷ es) ≡ true)
    extend (a, p) = passes-step m e es a (rw step-keeps at p)

-- A new merge request that a history brings to `applied` has had its verification required, then
-- passed, and then been applied, each of the three before the deadline of the request.
pub run-applied :
    (m : IdentityMerge) (es : List Event)
    → m.state ≡ requested
    → (run m es).state ≡ applied
    → passes m.expires_at (requirement ∷ verification ∷ application ∷ []) es ≡ true
unfolding stages_left
run-applied m es start h = rw start at ((run-passes m es h).1)
