-- ===== src/Routing/Best.antt =====
-- routing.rs: the best of a list of ranked rules, and how `consider` joins such answers.
use proxy_load.Base.{
  ℕ, suc, ◌≤◌, ◌≡◌, refl, sym, Bool, ◌||◌, Option, none, some, List, [], ◌∷◌, ◌++◌, arith,
  if◌then◌else◌,
}
use proxy_load.Models.{Bytes}
use proxy_load.Routing.{RankedPool, preferred, consider}

pub consider_assoc :
    (a b c : Option RankedPool) → consider (consider a b) c ≡ consider a (consider b c)
unfolding consider preferred
consider_assoc none b c = ground arith
consider_assoc (some a) none c = ground arith
consider_assoc (some a) (some b) none = ground arith
consider_assoc (some a) (some b) (some c) = ground arith

pub consider-none : (a : Option RankedPool) → consider none a ≡ a
unfolding consider
consider-none none = refl
consider-none (some a) = refl

consider_idem : (a : Option RankedPool) → consider a a ≡ a
unfolding consider preferred
consider_idem none = refl
consider_idem (some a) = ground arith

abbrev pub After : ℕ → Option RankedPool → Type 0
After n none = Unit
After n (some r) = n ≤ r.order

-- Ranks of different orders can be considered either way round.
consider_comm :
    (k : RankedPool) (b : Option RankedPool)
    → After (suc k.order) b
    → consider b (some k) ≡ consider (some k) b
unfolding consider preferred
consider_comm k none h = refl
consider_comm k (some b) h = ground arith

-- Rules with their ranks, in the order in which the pools list them.
abbrev pub Ranked : Type 0
Ranked = List (Bytes × RankedPool)

-- The orders grow along the list, from `n`.
abbrev pub Grows : ℕ → Ranked → Type 0
Grows n [] = Unit
Grows n ((rule, k) ∷ es) = (n ≤ k.order) × Grows (suc k.order) es

-- The best rank among the rules that pass the test.
abbrev pub best : (Bytes → Bool) → Ranked → Option RankedPool
best q [] = none
best q ((rule, k) ∷ es) = if q rule then consider (some k) (best q es) else best q es

After-mono : {m n : ℕ} (b : Option RankedPool) → m ≤ n → After n b → After m b
After-mono none h a = tt
After-mono (some b) h a = omega arith

After-consider : (n : ℕ) (a b : Option RankedPool) → After n a → After n b → After n (consider a b)
unfolding consider preferred
After-consider n none none h k = tt
After-consider n none (some b) h k = k
After-consider n (some a) none h k = h
After-consider n (some a) (some b) h k = ground arith

After-best : (n : ℕ) (q : Bytes → Bool) (es : Ranked) → Grows n es → After n (best q es)
After-best n q [] g = tt
After-best n q ((rule, k) ∷ es) g =
    let rest =
      After-mono {m = n} {n = suc k.order} (best q es) (omega arith)
        (After-best (suc k.order) q es g.1) in
    ground (arith, rest, After-consider n (some k) (best q es))

pub best-append :
    (q : Bytes → Bool) (es fs : Ranked) → best q (es ++ fs) ≡ consider (best q es) (best q fs)
best-append q [] fs = sym (consider-none (best q fs))
best-append q ((rule, k) ∷ es) fs =
    ground (arith, best-append q es fs, consider_assoc (some k) (best q es) (best q fs))

pub best_cong :
    (q r : Bytes → Bool) (es : Ranked) → ((rule : Bytes) → q rule ≡ r rule) → best q es ≡ best r es
best_cong q r [] h = refl
best_cong q r ((rule, k) ∷ es) h = ground (arith, best_cong q r es h, h rule)

-- Two searches of one list are joined by the disjunction of their tests.
pub best_or :
    (n : ℕ) (q r : Bytes → Bool) (es : Ranked)
    → Grows n es
    → consider (best q es) (best r es) ≡ best (λ rule. q rule || r rule) es
unfolding consider
best_or n q r [] g = refl
best_or n q r ((rule, k) ∷ es) g =
    let later = After-best (suc k.order) q es g.1 in
    let swap = consider_comm k (best q es) later in
    ground (
      arith,
      swap,
      best_or (suc k.order) q r es g.1,
      consider_assoc (some k) (best q es) (best r es),
      consider_assoc (best q es) (some k) (best r es),
      consider_assoc (some k) (best q es) (consider (some k) (best r es)),
      consider_assoc (some k) (some k) (consider (best q es) (best r es)),
      consider_assoc (some k) (some k) (best r es),
      consider_idem (some k),
      swap,
    )
