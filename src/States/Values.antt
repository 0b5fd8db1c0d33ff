-- ===== src/States/Values.antt =====
-- The values of the enumeration name its members: reading a value back is exact.
use migration_orchestrator_k.Prelude.{
  String, ◌≡◌, ◌↔◌, refl, ◌∙◌, ap, some, List, [], ◌∷◌, arith, eq_iff, Bool, true, ◌&&◌,
}
use migration_orchestrator_k.States.{
  ServerState, pending, value, members, find_member, server_state,
}

pub server_state-value : (s : ServerState) → server_state (value s) ≡ some s
unfolding server_state
server_state-value pending = refl
server_state-value _ = refl

find_member_sound :
    (l : List ServerState) (text : String) (s : ServerState)
    → find_member l text ≡ some s
    → text ≡ value s
unfolding find_member
find_member_sound [] text s h = ground arith
find_member_sound (m ∷ rest) text s h =
    ground (arith, eq_iff (value m) text, find_member_sound rest text s)

-- `ServerState(text)` finds a member exactly where the text is that member's value.
pub server_state_iff :
    (text : String) (s : ServerState) → (server_state text ≡ some s) ↔ (text ≡ value s)
server_state_iff text s = (
  λ h. unfold server_state in find_member_sound members text s h,
  λ e. ap server_state e ∙ server_state-value s,
)

all_of : List ServerState → (ServerState → Bool) → Bool
all_of [] p = true
all_of (s ∷ rest) p = p s && all_of rest p

-- A test of every member.
unfoldable pub all_states : (ServerState → Bool) → Bool
unfolding all_of
all_states p = all_of members p

all_of_sound :
    (l : List ServerState) (p : ServerState → Bool) (text : String) (s : ServerState)
    → all_of l p ≡ true
    → find_member l text ≡ some s
    → p s ≡ true
unfolding all_of find_member
all_of_sound [] p text s h f = ground arith
all_of_sound (m ∷ rest) p text s h f =
    ground (arith, eq_iff (value m) text, all_of_sound rest p text s)

pub all_states_sound : (p : ServerState → Bool) (s : ServerState) → all_states p ≡ true → p s ≡ true
unfolding all_states server_state
all_states_sound p s h = all_of_sound members p (value s) s h (server_state-value s)
