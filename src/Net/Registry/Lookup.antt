-- ===== src/Net/Registry/Lookup.antt =====
-- The registry finds every packet type by its number.
use project_tetris.Base.{◌≡◌, refl, some, pos}
use project_tetris.Net.Registry.{PacketType, type_code, lookup_type, s2c_error}

-- Every packet type is registered, and no two have the same number: its number is looked up as
-- itself.
pub lookup-type_code : (t : PacketType) → lookup_type (pos (type_code t)) ≡ some t
unfolding lookup_type type_code
lookup-type_code s2c_error = refl
lookup-type_code _ = refl
