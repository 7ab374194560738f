-- ===== src/Store/Posts.antt =====
-- The board of texts that stands for the bin of src/bin.cpp: a collection of posts, in no order.
use mathlib.Core.Bool.{Bool-set}
use mathlib.Core.List.{Permᴰ}
use mathlib.Core.List.Permᴰ.{nil, cons, swap, trans}
use mathlib.Core.Quot
use mathlib.Core.Quot.{Quot, Quot-set}
use dpaste.Prelude.{
  Bool, true, false, not, ◌&&◌, ◌||◌, List, [], ◌∷◌, Bytes, equal, equal_iff, All, ◌≡◌, ◌≢◌, refl,
  ap, ◌∙◌, arith, Bool-cases, inl, inr,
}

-- A text on the board, its address, and the pin under which it is stored.
pub record Post : Type 0 where
  pub pin : Bytes
  pub uri : Bytes
  pub text : Bytes

abbrev pub any : (Post → Bool) → List Post → Bool
any f [] = false
any f (q ∷ posts) = f q || any f posts

pub any-perm :
    (f : Post → Bool) {posts others : List Post} → Permᴰ posts others → any f posts ≡ any f others
any-perm f nil = refl
any-perm f (cons {a} {b} {l₁} {l₂} e p) =
    ap (λ q. f q || any f l₁) e ∙ ap (λ r. f b || r) (any-perm f p)
any-perm f (swap {a} {b} {a'} {b'} {l} e d) = let x = ap f e in let y = ap f d in ground arith
any-perm f (trans p r) = any-perm f p ∙ any-perm f r

-- The posts in no order.
abbrev pub Board : Type 0
Board = Quot {α = List Post} Permᴰ

abbrev pub empty_board : Board
empty_board = Quot.mk []

unfoldable pub pin_up : Post → Board → Board
pin_up q =
    Quot.lift Quot-set (λ posts. Quot.mk (q ∷ posts)) (λ posts others p. Quot.sound (cons refl p))

abbrev pub some_post : (Post → Bool) → Board → Bool
some_post f = Quot.lift Bool-set (any f) (λ posts others p. any-perm f p)

-- The text is at the address: the specification of `get`.
unfoldable pub holds : Bytes → Bytes → Board → Bool
holds uri text = some_post (λ q. equal q.uri uri && equal q.text text)

-- No post is under a pin with that hash.
unfoldable pub is_fresh : (Bytes → Bytes) → Bytes → Board → Bool
is_fresh info_hash pin board = not (some_post (λ q. equal (info_hash q.pin) (info_hash pin)) board)

-- The order in which two posts are pinned up does not matter.
pin_up_comm : (q r : Post) (board : Board) → pin_up q (pin_up r board) ≡ pin_up r (pin_up q board)
unfolding pin_up
pin_up_comm q r = Quot.ind (λ board. Quot-set _ _) (λ posts. Quot.sound (swap refl refl))

pub holds-All :
    (Kept : Post → Type 0) (uri text : Bytes) (posts : List Post)
    → All Kept posts
    → holds uri text (Quot.mk posts) ≡ true
    → (q : Post) × Kept q × (q.uri ≡ uri) × (q.text ≡ text)
unfolding holds
holds-All Kept uri text [] kept h = cc
holds-All Kept uri text (q ∷ posts) kept h =
    elim (Bool-cases (equal q.uri uri && equal q.text text)) [
      | inl e ↦ (
        q,
        kept.0,
        (equal_iff q.uri uri).0 (ground (arith, e)),
        (equal_iff q.text text).0 (ground (arith, e)),
      )
      | inr e ↦ holds-All Kept uri text posts kept.1 (ground (arith, e, h))
    ]

pub is_fresh-All :
    (info_hash : Bytes → Bytes) (pin : Bytes) (posts : List Post)
    → is_fresh info_hash pin (Quot.mk posts) ≡ true
    → All (λ q. info_hash q.pin ≢ info_hash pin) posts
unfolding is_fresh
is_fresh-All info_hash pin [] h = tt
is_fresh-All info_hash pin (q ∷ posts) h = (
  λ e. let same = (equal_iff (info_hash q.pin) (info_hash pin)).1 e in ground (arith, same, h),
  is_fresh-All info_hash pin posts (ground (arith, h)),
)
