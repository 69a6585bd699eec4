-- ===== src/Mem/Print.antt =====
-- The debug printer of kernel/mem.c.
use wl_00_rv.Prelude.{ℕ, zero, suc, ◌+◌, ◌*◌, ◌^◌, ◌==◌, ◌||◌, ltb, if◌then◌else◌, [], ◌∷◌, codes}
use wl_00_rv.Text.{word}
use wl_00_rv.Machine.{ok, undefined, Cmd, ◌>>◌}
use wl_00_rv.Ram.{load_word}
use wl_00_rv.Kprint.{printf}

-- The value of `increment` bytes.
sized : (ram : ℕ → ℕ) (increment a : ℕ) → ℕ
sized ram increment a =
    if increment == 1
    then ram a
    else if increment == 2
    then ram a + ram (a + 1) * 2 ^ 8
    else load_word ram a

-- The for loop of print_mem, on fuel; `len` is below 2 ^ 31.
print_mem_loop : (fuel addr i len increment : ℕ) → Cmd (Unit {0})
print_mem_loop zero addr i len increment s = undefined
print_mem_loop (suc fuel) addr i len increment s =
    let rest =
      (printf (codes "%p: ") (word (addr + i) ∷ [])
          >> (λ t. printf (codes "%p\n") (word (sized t.ram increment (addr + i)) ∷ []) t)
          >> print_mem_loop fuel addr (i + increment) len increment)
        s in
    if ltb i len then rest else ok tt s

unfoldable pub print_mem : (addr len increment : ℕ) → Cmd (Unit {0})
unfolding print_mem_loop sized
print_mem addr len increment =
    if increment == 1 || (increment == 2 || increment == 4)
    then print_mem_loop (suc len) addr 0 len increment
    else printf (codes "Invalid increment") []
