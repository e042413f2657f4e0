-- ===== src/Screen/Colors.antt =====
-- The pairs that the users get.
use cpp_tchat.Prelude.{
  ℕ, ◌+◌, ◌-◌, ◌%◌, ◌≤◌, ◌<◌, ◌≡◌, ◌≢◌, inl, inr, refl, ap, ◌∙◌, true, false, none, some,
  Option-cases, List, [], ◌∷◌, Bytes, bytes_eq_iff, length, is_empty, arith,
}
use cpp_tchat.Prelude.Map.{find, assign, name_key, find-assign}
use cpp_tchat.Screen.{Curses, Screen, max_pair, get_user_color_pair}

-- The pairs of the messages of `names`, in turn.
unfoldable pub color_users : Curses → List Bytes → Screen → Screen
color_users n [] s = s
color_users n (name ∷ names) s = color_users n names (get_user_color_pair n name s).1

pair_stays :
    (n : Curses) (name other : Bytes) (pair : ℕ) (s : Screen)
    → find name s.user_pairs ≡ some pair
    → find name (get_user_color_pair n other s).1.user_pairs ≡ some pair
unfolding get_user_color_pair
pair_stays n name other pair s found = ground (
  arith,
  found,
  find-assign name other s.next_pair s.user_pairs,
  find-assign name other (4 + n.hash other % (max_pair n - 3)) s.user_pairs,
  bytes_eq_iff other name,
)

-- Each pair that is given is past the first three and before the next one, and no two names share one.
pub record IsApart (s : Screen) : Type 0 where
  pub next : 4 ≤ s.next_pair
  pub below :
      (name : Bytes) (pair : ℕ)
      → find name s.user_pairs ≡ some pair
      → (4 ≤ pair) × (pair < s.next_pair)
  pub apart :
      (a b : Bytes) (pair : ℕ)
      → find a s.user_pairs ≡ some pair
      → find b s.user_pairs ≡ some pair
      → a ≡ b

-- A name that had no pair gets the next one.
remember-IsApart :
    (name : Bytes) (s : Screen) (palette : ℕ)
    → IsApart s
    → find name s.user_pairs ≡ none
    → IsApart (record s {
      user_pairs = assign name s.next_pair s.user_pairs;
      next_pair = s.next_pair + 1;
      next_palette = palette;
    })
remember-IsApart name s palette h fresh = record {
  next = omega (arith, h.next);
  below = λ a pair found.
      ground (arith, h.next, h.below a pair, find-assign a name s.next_pair s.user_pairs, found);
  apart = λ a b pair left right. ground (
    arith,
    left,
    right,
    h.apart a b pair,
    h.below a pair,
    h.below b pair,
    find-assign a name s.next_pair s.user_pairs,
    find-assign b name s.next_pair s.user_pairs,
    bytes_eq_iff name a,
    bytes_eq_iff name b,
  );
}

get_user_color_pair-IsApart :
    (n : Curses) (name : Bytes) (s : Screen)
    → IsApart s
    → s.next_pair ≤ max_pair n
    → IsApart (get_user_color_pair n name s).1
      × ((get_user_color_pair n name s).1.next_pair ≤ s.next_pair + 1)
unfolding get_user_color_pair
get_user_color_pair-IsApart n name s h room = elim (Option-cases (find name s.user_pairs)) [
  | inr (pair, found) ↦ ground (arith, found, h)
  | inl fresh ↦ ground (arith, fresh, h, remember-IsApart name s (s.next_palette + 1) h fresh)
]

color_users-IsApart :
    (n : Curses) (names : List Bytes) (s : Screen)
    → IsApart s
    → s.next_pair + length names ≤ max_pair n + 1
    → IsApart (color_users n names s)
unfolding color_users
color_users-IsApart n [] s h room = h
color_users-IsApart n (name ∷ names) s h room =
    let step = get_user_color_pair-IsApart n name s h (omega arith) in
    color_users-IsApart n names _ (step.0) (omega (arith, step.1))

start_empty :
    (name : Bytes) (pair : ℕ) (s : Screen)
    → s.user_pairs ≡ []
    → find name s.user_pairs ≡ some pair
    → ⊥
unfolding find
start_empty name pair s none_yet found = ground (arith, ap (find name) none_yet, found)

-- From a start without pairs of users, and with no more messages of users than free pairs: two users
-- who have got pairs have got two different ones, none of them a pair of the program's own messages.
pub color_users-apart :
    (n : Curses) (names : List Bytes) (s : Screen) (a b : Bytes) (pair : ℕ)
    → s.user_pairs ≡ []
    → s.next_pair ≡ 4
    → length names + 3 ≤ max_pair n
    → find a (color_users n names s).user_pairs ≡ some pair
    → find b (color_users n names s).user_pairs ≡ some pair
    → (a ≡ b) × (4 ≤ pair)
color_users-apart n names s a b pair none_yet first room left right =
    (apart.apart a b pair left right, (apart.below a pair left).0)
  where
    start : IsApart s
    start = record {
      next = omega (arith, first);
      below = λ name p found. absurd (start_empty name p s none_yet found);
      apart = λ a b p found other. absurd (start_empty a p s none_yet found);
    }

    apart : IsApart (color_users n names s)
    apart = color_users-IsApart n names s start (omega (arith, first))

color_users-keeps :
    (n : Curses) (names : List Bytes) (name : Bytes) (pair : ℕ) (s : Screen)
    → find name s.user_pairs ≡ some pair
    → find name (color_users n names s).user_pairs ≡ some pair
unfolding color_users
color_users-keeps n [] name pair s found = found
color_users-keeps n (other ∷ names) name pair s found =
    color_users-keeps n names name pair _ (pair_stays n name other pair s found)

color_users-ready :
    (n : Curses) (names : List Bytes) (s : Screen)
    → (color_users n names s).colors_ready ≡ s.colors_ready
unfolding color_users get_user_color_pair
color_users-ready n [] s = refl
color_users-ready n (other ∷ names) s = color_users-ready n names _ ∙ ground arith

got :
    (n : Curses) (name : Bytes) (s : Screen)
    → (get_user_color_pair n name s).0 ≢ 0
    → find name (get_user_color_pair n name s).1.user_pairs ≡ some (get_user_color_pair n name s).0
unfolding get_user_color_pair
got n name s h = ground (
  arith,
  h,
  find-assign name name s.next_pair s.user_pairs,
  find-assign name name (4 + n.hash name % (max_pair n - 3)) s.user_pairs,
  bytes_eq_iff name name,
)

ready :
    (n : Curses) (name : Bytes) (s : Screen)
    → (get_user_color_pair n name s).0 ≢ 0
    → ((get_user_color_pair n name s).1.colors_ready ≡ true) × (is_empty name ≡ false)
unfolding get_user_color_pair
ready n name s h = ground (arith, h)

again :
    (n : Curses) (name : Bytes) (pair : ℕ) (s : Screen)
    → s.colors_ready ≡ true
    → is_empty name ≡ false
    → find name s.user_pairs ≡ some pair
    → (get_user_color_pair n name s).0 ≡ pair
unfolding get_user_color_pair
again n name pair s ready named found = ground (arith, ready, named, found)

-- A user who has got a pair other than 0 keeps it, whoever writes in between.
pub get_user_color_pair-color_users :
    (n : Curses) (name : Bytes) (names : List Bytes) (s : Screen)
    → (get_user_color_pair n name s).0 ≢ 0
    → (get_user_color_pair n name (color_users n names (get_user_color_pair n name s).1)).0
      ≡ (get_user_color_pair n name s).0
get_user_color_pair-color_users n name names s h =
    again n name _ _ (color_users-ready n names _ ∙ (ready n name s h).0) (ready n name s h).1
      (color_users-keeps n names name _ _ (got n name s h))
