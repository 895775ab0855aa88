-- ===== src/Util/LineBuffer.antt =====
-- util/LineBuffer.hpp, util/LineBuffer.cpp: a zeroed block that only grows. `none` is a call that
-- does not return: the doubling loop never ends for a size that no doubling reaches.
pub mod Laws
use rubo.Base.{
  ℕ, zero, suc, ◌*◌, Bool, true, false, List, Option, none, some, replicate, copy_at, leb, ltb,
  ◌==◌, if◌then◌else◌,
}
use rubo.Base.Int.{add_size, mul_size}

abbrev pub def_line_buff_size : ℕ
def_line_buff_size = 256

pub record LineBuffer : Type 0 where
  pub buff_size : ℕ
  pub buff : List ℕ

unfoldable pub new_line : LineBuffer
new_line = record { buff_size = def_line_buff_size; buff = replicate def_line_buff_size 0 }

-- `while(new_size < need_size) new_size = new_size * 2;` on fuel.
unfoldable pub double_up : ℕ → ℕ → ℕ → Option ℕ
double_up zero new_size need_size = none
double_up (suc fuel) new_size need_size = elim (ltb new_size need_size) [
  | true ↦ double_up fuel (mul_size new_size 2) need_size
  | false ↦ some new_size
]

-- The new size; 65 tests are enough, since 64 doublings leave no bit of the size.
unfoldable pub grown_size : ℕ → ℕ → Option ℕ
grown_size size need_size =
    if need_size == 0
    then (if leb (1024 * 512) size then some (add_size size (1024 * 4)) else some (mul_size size 2))
    else double_up 65 size need_size

unfoldable pub append_size : LineBuffer → ℕ → Option LineBuffer
append_size l need_size = elim (grown_size l.buff_size need_size) [
  | none ↦ none
  | some new_size ↦
      some (record { buff_size = new_size; buff = copy_at (replicate new_size 0) 0 l.buff })
]

unfoldable pub clean_data : LineBuffer → LineBuffer
clean_data l = record l { buff = replicate l.buff_size 0 }
