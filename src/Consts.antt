-- ===== src/Consts.antt =====
-- rsfbclient-rust/src/consts.rs (protocol versions, user identification, authentication plugins and
-- blr codes) and the numbers of rsfbclient-core/src/ibase.rs that the modelled code names.
pub mod Op
pub mod Cnct
pub mod Ibase
pub mod Blr
pub mod Stmt
use rsfbclient.Base.{leb, ◌==◌, if◌then◌else◌, ℕ, Bool, true, false, ◌&&◌, [], ◌∷◌, ◌++◌, Bytes}
use rsfbclient.Error.{unknown_protocol, invalid_auth_plugin, other, Result, ok, err}

pub data ProtocolVersion : Type 0 where
  v10 v11 v12 v13 : ProtocolVersion

-- `version as u32`, by which versions are compared too.
abbrev pub version_code : ProtocolVersion → ℕ
version_code v10 = 0x0000_000A
version_code v11 = 0xFFFF_800B
version_code v12 = 0xFFFF_800C
version_code v13 = 0xFFFF_800D

-- `ProtocolVersion::try_from`, and the error that its caller makes of a failure.
unfoldable pub version_try_from : ℕ → Result ProtocolVersion
version_try_from n =
    if n == 0x0000_000A
    then ok v10
    else (if n == 0xFFFF_800B
        then ok v11
        else (if n == 0xFFFF_800C
            then ok v12
            else (if n == 0xFFFF_800D then ok v13 else err (other (unknown_protocol n)))))

-- `version >= ProtocolVersion::V13`
abbrev pub at_least_v13 : ProtocolVersion → Bool
at_least_v13 v = leb (version_code v13) (version_code v)

abbrev pub p_req_async : ℕ
p_req_async = 1

pub data AuthPluginType : Type 0 where
  srp256 srp : AuthPluginType

-- "Srp256" and "Srp"
abbrev pub name : AuthPluginType → Bytes
name srp256 = b'S' ∷ b'r' ∷ b'p' ∷ b'2' ∷ b'5' ∷ b'6' ∷ []
name srp = b'S' ∷ b'r' ∷ b'p' ∷ []

abbrev pub plugin_list : Bytes
plugin_list = name srp ++ (b',' ∷ name srp256)

-- Equality of byte strings.
unfoldable pub bytes_eq : Bytes → Bytes → Bool
bytes_eq [] [] = true
bytes_eq (x ∷ xs) (y ∷ ys) = x == y && bytes_eq xs ys
bytes_eq _ _ = false

unfoldable pub parse : Bytes → Result AuthPluginType
parse given =
    if bytes_eq given (name srp256)
    then ok srp256
    else (if bytes_eq given (name srp) then ok srp else err (other (invalid_auth_plugin given)))
