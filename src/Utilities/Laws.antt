-- ===== src/Utilities/Laws.antt =====
-- What `copyString` of hebench/api_bridge/src/utilities.cpp writes, and the protocol of asking for
-- the size first.
use api_bridge.Base.{
  ℕ, suc, ltb, if◌then◌else◌, ◌⊎◌, inl, ◌+◌, ◌-◌, ◌<◌, ◌≤◌, min, ◌≡◌, refl, zero, ◌∙◌, ap, some,
  List, [], ◌∷◌, ◌++◌, length, take, drop, set, arith, length-take, set-append_at, take_all,
  drop_all, ◌≢◌,
}
use api_bridge.Text.{Text}
use api_bridge.Types.{Address}
use api_bridge.Memory.{World, chars, lookup, insert, returns}
use api_bridge.Utilities.{copy_n, write_string, copy_string}

drop-cons : (k : ℕ) (dst : List ℕ) → k < length dst → (y : ℕ) × (drop k dst ≡ y ∷ drop (suc k) dst)
drop-cons k [] h = elim h [ ]
drop-cons zero (x ∷ dst) h = (x, refl)
drop-cons (suc k) (x ∷ dst) h = drop-cons k dst (omega arith)

-- The characters that fit are followed by a terminator and by what was there before.
abbrev pub terminated : ℕ → Text → List ℕ → List ℕ
terminated k src dst = take k src ++ 0 ∷ drop (suc k) dst

set_terminator :
    (k : ℕ) (src dst : List ℕ)
    → k ≤ length src
    → k < length dst
    → set (take k src ++ drop k dst) k 0 ≡ terminated k src dst
set_terminator k src dst fits room =
    let (y, e) = drop-cons k dst room in
    rw e (set-append_at (take k src) (drop (suc k) dst) y 0 k (omega (arith, length-take k src)))

-- The copy of no characters is no copy.
copied_lem :
    (m : ℕ) (src dst : List ℕ)
    → (if ltb 1 m then copy_n (m - 1) src dst else dst) ≡ copy_n (m - 1) src dst
copied_lem zero src dst = refl
copied_lem (suc zero) src dst = refl
copied_lem (suc (suc j)) src dst = ground arith

pub write_string_lem :
    (dst : List ℕ) (size : ℕ) (src : Text)
    → 0 < size
    → min size (length src + 1) ≤ length dst
    → write_string dst size src ≡ some (terminated (min size (length src + 1) - 1) src dst)
unfolding write_string
write_string_lem dst size src pos room =
    let k : ℕ = min size (length src + 1) - 1 in
    rw (copied_lem (min size (length src + 1)) src dst)
      (ground (arith, set_terminator k src dst (omega arith) (omega arith)))

whole :
    (src : Text) (buffer : List ℕ)
    → length buffer ≡ length src + 1
    → terminated (min (length src + 1) (length src + 1) - 1) src buffer ≡ src ++ 0 ∷ []
whole src buffer room =
    let e : min (length src + 1) (length src + 1) - 1 ≡ length src = omega arith in
    rw
      (e, take_all (length src) src (omega arith), drop_all (suc (length src)) buffer (omega arith))

module _ {P : Type 0} where
  -- Into an array that holds what is written, the call stores as much of the text as `size` allows
  -- and a terminator, leaves the rest of the array and of the memory alone, and returns the size
  -- that the whole text takes.
  pub copy_string_stores :
      (dst : Address) (size : ℕ) (src : Text) (buffer : List ℕ) (w : World P)
      → dst ≢ 0
      → 0 < size
      → lookup dst w.heap ≡ some (chars buffer)
      → min size (length src + 1) ≤ length buffer
      → copy_string dst size src w
        ≡ returns (length src + 1) (record w {
          heap = insert dst (chars (terminated (min size (length src + 1) - 1) src buffer)) w.heap;
        })
  unfolding copy_string
  copy_string_stores dst size src buffer w ne pos at room =
      ground (arith, write_string_lem buffer size src pos room)

  -- Without an array, or with size 0, the call only returns the size.
  pub copy_string_asks :
      (dst : Address) (size : ℕ) (src : Text) (w : World P)
      → (dst ≡ 0) ⊎ (size ≡ 0)
      → copy_string dst size src w ≡ returns (length src + 1) w
  unfolding copy_string
  copy_string_asks dst size src w h = ground arith

  -- The caller who allocates the size that a first call, without an array, returned gets the whole
  -- text and its terminator, and that size again.
  pub copy_string_protocol :
      (dst : Address) (src : Text) (buffer : List ℕ) (w v : World P)
      → dst ≢ 0
      → lookup dst w.heap ≡ some (chars buffer)
      → copy_string 0 0 src w ≡ returns (length buffer) v
      → copy_string dst (length buffer) src w
        ≡ returns (length buffer) (record w { heap = insert dst (chars (src ++ 0 ∷ [])) w.heap })
  copy_string_protocol dst src buffer w v ne at asked =
      let room : length buffer ≡ length src + 1 =
        ground (arith, asked, copy_string_asks 0 0 src w (inl refl)) in
      rw room (
        copy_string_stores dst (length src + 1) src buffer w ne (omega arith) at (omega arith)
        ∙ ap (λ c. returns (length src + 1) (record w { heap = insert dst (chars c) w.heap }))
            (whole src buffer room))
