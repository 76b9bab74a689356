-- ===== src/Binary/Hex/Concat.antt =====
-- `concatUint8Arr` of system/lib/binaryHelpers.ts copies at moving offsets into one array of zeros.
use squidlet.Base.{
  ℕ, ◌+◌, ◌≡◌, refl, sym, ◌∙◌, List, [], ◌∷◌, ◌++◌, append_assoc, arith, length, replicate, drop,
  length-replicate, replicate-add, length-append, take-append_self, drop-append_self,
}
use squidlet.Binary.Hex.{total, set_from, concat_loop, concat_uint8_arr}

abbrev pub flat : List (List ℕ) → List ℕ
flat [] = []
flat (a ∷ as') = a ++ flat as'

drop_past :
    (pre : List ℕ) (k m : ℕ) → drop (length pre + k) (pre ++ replicate (k + m) 0) ≡ replicate m 0
drop_past pre k m =
    let size : length pre + k ≡ length (pre ++ replicate k 0) =
      omega (arith, length-append pre (replicate k 0), length-replicate {A = ℕ} k 0) in
    rw (replicate-add {A = ℕ} k m 0, ← append_assoc pre (replicate k 0) (replicate m 0), size)
      (drop-append_self (pre ++ replicate k 0) (replicate m 0))

concat_loop-flat :
    (pre : List ℕ) (as' : List (List ℕ))
    → concat_loop (pre ++ replicate (total as') 0) (length pre) as' ≡ pre ++ flat as'
unfolding concat_loop
concat_loop-flat pre [] = refl
concat_loop-flat pre (a ∷ as') =
    let zeros = replicate (length a + total as') 0 in
    let set : set_from (pre ++ zeros) (length pre) a ≡ (pre ++ a) ++ replicate (total as') 0 =
      rw (take-append_self pre zeros, drop_past pre (length a) (total as'))
        (sym (append_assoc pre a (replicate (total as') 0))) in
    rw (set, ← length-append pre a)
      (concat_loop-flat (pre ++ a) as' ∙ append_assoc pre a (flat as'))

-- `concatUint8Arr` gives the bytes of its arrays one after the other: no copy overwrites another,
-- and no zero is left.
pub concat_uint8_arr-flat :
    (first : List ℕ) (others : List (List ℕ)) → concat_uint8_arr first others ≡ first ++ flat others
unfolding concat_uint8_arr
concat_uint8_arr-flat first others = concat_loop-flat [] (first ∷ others)
