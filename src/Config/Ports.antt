-- ===== src/Config/Ports.antt =====
-- `parse_out_port` of src/config.rs.
use p2p_tunnler.Prelude.{
  ℕ, ◌<◌, ◌^◌, ◌≡◌, ◌↔◌, ◌⊎◌, ◌||◌, ltb, ◌==◌, if◌then◌else◌, arith, Result, ok, err, ◌>>=◌,
  >>=-eq-ok, ap, ◌∙◌,
}
use Prim.Native.String.{String}
use p2p_tunnler.Text.{codes}
use p2p_tunnler.Text.Numbers.{ParseIntError, from_str_radix, IsNumeral, from_str_radix_iff}

pub data OutPortError : Type 0 where
  invalid_udp_port : ParseIntError → OutPortError
  privileged : OutPortError

abbrev pub map_err : Result ParseIntError ℕ → Result OutPortError ℕ
map_err (ok port) = ok port
map_err (err e) = err (invalid_udp_port e)

abbrev pub check_port : ℕ → Result OutPortError ℕ
check_port port = if port == 0 || ltb 1024 port then ok port else err privileged

unfoldable pub parse_out_port : String → Result OutPortError ℕ
parse_out_port value = do port ← map_err (from_str_radix 10 (2 ^ 16) (codes value)); check_port port

mapped : (r : Result ParseIntError ℕ) (port : ℕ) → map_err r ≡ ok port → r ≡ ok port
mapped (ok n) port h = cc
mapped (err e) port h = absurd cc

-- A text is taken as the outgoing port exactly if it is a decimal number, perhaps with a plus sign, that
-- is 0 or above 1024 and has 16 bits.
pub parse_out_port_iff :
    (value : String) (port : ℕ)
    → (parse_out_port value ≡ ok port)
      ↔ (IsNumeral 10 (codes value) port × ((port ≡ 0) ⊎ (1024 < port)) × (port < 2 ^ 16))
unfolding parse_out_port
parse_out_port_iff value port = (
  λ h.
      let (n, read, checks) = >>=-eq-ok (map_err (from_str_radix 10 (2 ^ 16) (codes value))) _ h in
      let same : n ≡ port = ground arith in
      let (numeral, fits) =
        (from_str_radix_iff 10 (2 ^ 16) (omega arith) (codes value) port (omega arith)).0
          (mapped (from_str_radix 10 (2 ^ 16) (codes value)) n read ∙ ap ok same) in
      (numeral, ground arith, fits),
  λ (numeral, allowed, fits).
      ap (λ r. map_err r >>= check_port)
        ((from_str_radix_iff 10 (2 ^ 16) (omega arith) (codes value) port (omega arith)).1
          (numeral, fits))
      ∙ ground arith,
)
