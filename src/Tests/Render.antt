-- ===== src/Tests/Render.antt =====
-- Bytes in hexadecimal.
use pact_protobuf_plugin.Base.{◌≡◌, [], ◌∷◌, arith}
use pact_protobuf_plugin.Render.{as_hex, unhex, unhex-as_hex}

unhex-as_hex_example : unhex (as_hex (10 ∷ 255 ∷ [])) ≡ 10 ∷ 255 ∷ []
unhex-as_hex_example = unhex-as_hex (10 ∷ 255 ∷ []) (omega arith, (omega arith, tt))
