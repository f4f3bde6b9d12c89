-- ===== src/Tunnel/Window.antt =====
-- The replay window of the receiver, RxWindow (src/core/ipv8-tunnel/src/crypto.rs).
pub mod Masks
pub mod Refines
use ipv_8_public_base_statio.Common.{
  ℕ, ◌+◌, ◌-◌, ◌*◌, ◌%◌, ◌^◌, Bool, true, false, List, [], ◌∷◌, ◌||◌, ltb, leb, ◌==◌, if◌then◌else◌,
}
use ipv_8_public_base_statio.Common.Bits.{put_bit, test_bit}

-- The mask is a u128: bit `k` tells of the counter `top - k`.
pub record RxWindow : Type 0 where
  pub top : ℕ
  pub mask : ℕ

abbrev pub rx_window : ℕ
rx_window = 127

-- `RxWindow::default()`.
abbrev pub new_window : RxWindow
new_window = record { top = 0; mask = 0 }

-- `(mask << shift) | 1` for a shift below 128 that is not 0, so that the shifted mask is even.
unfoldable pub shift_in : ℕ → ℕ → ℕ
shift_in mask shift = mask * 2 ^ shift % 2 ^ 128 + 1

unfoldable pub accept : RxWindow → ℕ → RxWindow × Bool
unfolding test_bit put_bit shift_in
accept w counter =
    if counter == 0
    then (w, false)
    else if w.top == 0 || ltb w.top counter
    then (let shift = counter - w.top in
        (
          record { top = counter; mask = if leb rx_window shift then 1 else shift_in w.mask shift },
          true,
        ))
    else let back = w.top - counter in
      if leb rx_window back
      then (w, false)
      else if test_bit back w.mask
      then (w, false)
      else (record w { mask = put_bit back w.mask }, true)

-- The answers to a sequence of counters.
unfoldable pub accept_all : RxWindow → List ℕ → List Bool
accept_all w [] = []
accept_all w (c ∷ cs) = let (w', accepted) = accept w c in accepted ∷ accept_all w' cs
