-- ===== src/Vm/Unmap.antt =====
-- uvmunmap, uvmfree, freewalk and uvmalloc of kernel/vm.c.
use wl_00_rv.Prelude.{
  ℕ, zero, suc, ◌+◌, ◌*◌, ◌-◌, ◌/◌, ◌%◌, Bool, true, false, ◌||◌, ltb, ◌==◌, ◌!=◌, if◌then◌else◌,
  bit_and, bit_or, add32, sub32,
}
use wl_00_rv.Machine.{ok, undefined, Cmd, pure, ◌>>=◌, ◌>>◌, modify, panic}
use wl_00_rv.Mem.{page_size, memset, kalloc, kfree, pg_round_up}
use wl_00_rv.Vm.Defs.{
  pte_v, pte_r, pte_u, pte2pa, find_pte, mappages, load, store, user_base, user_stack_top,
}

-- The body of the loop of uvmunmap, behind its find_pte.
unfoldable pub drop_pte : (free : Bool) (pte : ℕ) → Cmd (Unit {0})
drop_pte free pte s =
    if pte == 0
    then ok tt s
    else if bit_and (load pte s) pte_v == 0
    then ok tt s
    else ((if free then kfree (pte2pa (load pte s)) else pure tt) >> modify (store pte 0)) s

-- The for loop of uvmunmap, on fuel.
unfoldable pub unmap_loop : (fuel pt curr end : ℕ) (free : Bool) → Cmd (Unit {0})
unmap_loop zero pt curr end free s = undefined
unmap_loop (suc fuel) pt curr end free s =
    let rest =
      ((find_pte pt curr false >>= drop_pte free)
          >> unmap_loop fuel pt (add32 curr page_size) end free)
        s in
    if ltb curr end then rest else ok tt s

-- One round for each page, and one to leave the loop.
unfoldable pub uvmunmap : (pt va size : ℕ) (free : Bool) → Cmd (Unit {0})
unfolding unmap_loop drop_pte
uvmunmap pt va size free =
    if va % page_size != 0 || size % page_size != 0
    then panic "uvmunmap: not aligned"
    else unmap_loop (suc (size / page_size)) pt va (add32 va size) free

-- The body of the loop of freewalk.
unfoldable pub free_table : (pt i : ℕ) → Cmd (Unit {0})
free_table pt i s =
    let pte1 = load (pt + 4 * i) s in
    if bit_and pte1 pte_v != 0 then kfree (pte2pa pte1) s else ok tt s

-- The for loop of freewalk, by the entries left.
unfoldable pub freewalk_loop : (rounds pt i : ℕ) → Cmd (Unit {0})
freewalk_loop zero pt i s = ok tt s
freewalk_loop (suc n) pt i s = (free_table pt i >> freewalk_loop n pt (i + 1)) s

unfoldable pub freewalk : ℕ → Cmd (Unit {0})
unfolding freewalk_loop
freewalk pt = freewalk_loop 1024 pt 0 >> kfree pt

unfoldable pub uvmfree : (pt size : ℕ) → Cmd (Unit {0})
unfolding uvmunmap
uvmfree pt size =
    if size % page_size != 0
    then panic "uvmfree: size not aligned"
    else (if ltb user_base size then uvmunmap pt user_base (size - user_base) true else pure tt)
      >> (uvmunmap pt (user_stack_top - page_size) page_size true >> freewalk pt)

-- The undo of uvmalloc: the pages mapped so far, and the result 0.
undo : (pt start curr : ℕ) → Cmd ℕ
undo pt start curr = uvmunmap pt start (sub32 curr start) true >> pure 0

-- Behind the mappages of uvmalloc.
grown : (pt start curr mem result : ℕ) → Cmd ℕ → Cmd ℕ
unfolding undo
grown pt start curr mem result next = if result != 0 then kfree mem >> undo pt start curr else next

-- The for loop of uvmalloc, on fuel.
grow_loop : (fuel pt start curr newsz xperm : ℕ) → Cmd ℕ
unfolding grown undo
grow_loop zero pt start curr newsz xperm s = undefined
grow_loop (suc fuel) pt start curr newsz xperm s =
    let rest =
      (kalloc >>= λ mem.
      if mem == 0
      then undo pt start curr
      else modify (λ t. record t { ram = memset mem 0 page_size t.ram })
        >> (mappages pt curr mem page_size (bit_or (bit_or pte_r pte_u) xperm) >>= λ result.
            grown pt start curr mem result
              (grow_loop fuel pt start (add32 curr page_size) newsz xperm)))
        s in
    if ltb curr newsz then rest else ok newsz s

-- One round for each page below newsz, and one to leave the loop.
unfoldable pub uvmalloc : (pt oldsz newsz xperm : ℕ) → Cmd ℕ
unfolding grow_loop
uvmalloc pt oldsz newsz xperm =
    if ltb newsz oldsz
    then pure oldsz
    else (let start = pg_round_up oldsz in
        grow_loop (suc (newsz / page_size + 1)) pt start start newsz xperm)
