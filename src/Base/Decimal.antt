-- ===== src/Base/Decimal.antt =====
-- Decimal printing of unsigned integers (`to_string` and `{}` of u16, u32, usize).
use Prim.Native.Nat.{ℕ, zero, suc, ◌+◌, ◌/◌, ◌%◌}
use mathlib.Core.List.{[], ◌∷◌}
use nexo_plugin_email.Base.Tests.{ltb, if◌then◌else◌}
use nexo_plugin_email.Base.Text.{Str}

-- The digits of `n` in front of `acc`; fuel `n + 1` is enough, as `n` falls at each round.
decimal_from : ℕ → ℕ → Str → Str
decimal_from zero n acc = acc
decimal_from (suc f) n acc =
    let rest = decimal_from f (n / 10) ((b'0' + n % 10) ∷ acc) in
    if ltb n 10 then (b'0' + n) ∷ acc else rest

unfoldable pub decimal : ℕ → Str
unfolding decimal_from
decimal n = decimal_from (suc n) n []
