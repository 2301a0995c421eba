-- ===== src/State/Lookup.antt =====
-- The map of src/state.rs as a finite map: what is found after an insertion or a removal.
use myx_im.Base.{◌≡◌, none, List, [], ◌∷◌, ◌==◌, if◌then◌else◌, arith}
use myx_im.Model.{Uuid}
use myx_im.State.{OnlineUser, get, remove}

pub get-remove :
    (uid v : Uuid) (m : List (Uuid × OnlineUser))
    → get v (remove uid m) ≡ (if v == uid then none else get v m)
unfolding get remove
get-remove uid v [] = ground arith
get-remove uid v ((u, o) ∷ rest) = ground (arith, get-remove uid v rest)
