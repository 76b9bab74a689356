-- ===== src/Base/Decimal.antt =====
-- `String(n)` of a natural number: its decimal digits.
use Prim.Native.Nat.{ℕ, zero, suc, ◌/◌, ◌%◌}
use Prim.Native.String.{String, ◌++◌}
use squidlet.Base.Tests.{◌==◌, if◌then◌else◌}

abbrev digit : ℕ → String
digit d =
    if d == 0
    then "0"
    else if d == 1
    then "1"
    else if d == 2
    then "2"
    else if d == 3
    then "3"
    else if d == 4
    then "4"
    else if d == 5
    then "5"
    else if d == 6
    then "6"
    else if d == 7
    then "7"
    else if d == 8
    then "8"
    else "9"

-- A number has fewer digits than the fuel `n + 1`.
digits_from : ℕ → ℕ → String → String
digits_from zero n acc = acc
digits_from (suc f) n acc =
    let longer = digits_from f (n / 10) (digit (n % 10) ++ acc) in
    if n / 10 == 0 then digit (n % 10) ++ acc else longer

unfoldable pub decimal : ℕ → String
unfolding digits_from
decimal n = digits_from (suc n) n ""
