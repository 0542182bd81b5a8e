-- ===== src/Identity/Link.antt =====
-- src/identity/core/link.cpp: a request to attach an external identity, as a state machine.
pub mod Progress
use openproof.Base.{
  ◌+◌, Bool, true, false, not, ◌||◌, ◌&&◌, Option, Text, leb, is_empty, if◌then◌else◌,
}
use openproof.Foundation.{
  Result, ok, fail, Status, Instant, Duration, ◌>>◌, refuse_if, invalid_argument,
  failed_precondition,
}

pub record ExternalIdentityRef : Type 0 where
  pub provider_id : Text
  pub subject : Text
  pub display_name : Option Text
  pub preferred_username : Option Text
  pub picture_url : Option Text

-- The provider with its subject is what the comparisons read; the rest is presentation.
abbrev pub ExternalKey : Type 0
ExternalKey = Text × Text

abbrev pub key_of : ExternalIdentityRef → ExternalKey
key_of e = (e.provider_id, e.subject)

pub data LinkState : Type 0 where
  link_requested verification_required verified linked rejected expired revoked : LinkState

unfoldable pub is_terminal_link_state : LinkState → Bool
is_terminal_link_state rejected = true
is_terminal_link_state expired = true
is_terminal_link_state revoked = true
is_terminal_link_state link_requested = false
is_terminal_link_state verification_required = false
is_terminal_link_state verified = false
is_terminal_link_state linked = false

-- The transition table, by the state that is left.
from_requested : LinkState → Bool
from_requested verification_required = true
from_requested rejected = true
from_requested expired = true
from_requested _ = false

from_required : LinkState → Bool
from_required verified = true
from_required rejected = true
from_required expired = true
from_required _ = false

from_verified : LinkState → Bool
from_verified linked = true
from_verified rejected = true
from_verified expired = true
from_verified _ = false

from_linked : LinkState → Bool
from_linked revoked = true
from_linked _ = false

unfoldable pub is_permitted_transition : LinkState → LinkState → Bool
unfolding from_requested from_required from_verified from_linked
is_permitted_transition link_requested to = from_requested to
is_permitted_transition verification_required to = from_required to
is_permitted_transition verified to = from_verified to
is_permitted_transition linked to = from_linked to
is_permitted_transition rejected to = false
is_permitted_transition expired to = false
is_permitted_transition revoked to = false

pub record IdentityLink : Type 0 where
  pub owner : Text
  pub external : ExternalIdentityRef
  pub state : LinkState
  pub requested_at : Instant
  pub expires_at : Instant

unfoldable pub request : Text → ExternalIdentityRef → Instant → Duration → Result IdentityLink
request owner external requested_at lifetime = do
  refuse_if (is_empty owner) invalid_argument
  refuse_if (is_empty external.provider_id || is_empty external.subject) invalid_argument
  refuse_if (leb lifetime 0) invalid_argument
  ok (record {
    owner = owner;
    external = external;
    state = link_requested;
    requested_at = requested_at;
    expires_at = requested_at + lifetime;
  })

abbrev pub is_expired_at : IdentityLink → Instant → Bool
is_expired_at l now = leb l.expires_at now

unfoldable pub transition_to : IdentityLink → LinkState → Instant → Bool → IdentityLink × Status
unfolding is_permitted_transition
transition_to l next now honour_expiry =
    if not (is_permitted_transition l.state next)
    then (l, fail failed_precondition)
    else if honour_expiry && is_expired_at l now
    then (record l { state = expired }, fail failed_precondition)
    else (record l { state = next }, ok tt)

unfoldable pub require_verification : IdentityLink → Instant → IdentityLink × Status
require_verification l now = transition_to l verification_required now true

unfoldable pub mark_verified : IdentityLink → Instant → IdentityLink × Status
mark_verified l now = transition_to l verified now true

unfoldable pub complete : IdentityLink → Instant → IdentityLink × Status
complete l now = transition_to l linked now true

unfoldable pub reject : IdentityLink → Instant → IdentityLink × Status
reject l now = transition_to l rejected now false

unfoldable pub revoke : IdentityLink → Instant → IdentityLink × Status
revoke l now = transition_to l revoked now false

unfoldable pub expire : IdentityLink → Instant → IdentityLink × Status
expire l now = transition_to l expired now false
