-- ===== src/Eviction/Windows.antt =====
-- What src/background/cache/guard-ring.js protects stays protected, and is what stands in a window.
use aegis_stream.Prelude.Keys.{string_eq, nat_eq}
use aegis_stream.Prelude.OrdSet
use aegis_stream.Prelude.OrdSet.{has-add, has-add_all}
use aegis_stream.Prelude.{
  Bool, ℕ, zero, suc, ◌+◌, ◌-◌, ◌≤◌, ◌<◌, ◌≡◌, refl, ap, ◌∙◌, String, true, false, ◌⊎◌, inl, inr,
  some, List, [], ◌∷◌, length, take, drop, get_elem?, min, arith, Bool-cases, Option-cases,
}
use aegis_stream.Eviction.Guards.{
  Keys, Tab, Env, add_url_to_protected_set, add_urls, past_of, future_of, window_of, add_windows,
  anchors_or_none, add_tab, add_tabs, is_empty, collect_guard_ring_protected_urls,
  collect_tier_a_protected_urls, collect_consumer_protected_urls, is_url_guard_ring_protected,
}

-- The key is in the set after, if it was before.
add_url-keeps :
    (keys : Keys) (k url : String) (s : List String)
    → OrdSet.has k s ≡ true
    → OrdSet.has k (add_url_to_protected_set keys url s) ≡ true
add_url-keeps keys k url s h = elim (Option-cases (keys.strip_hash url)) [
  | inl p ↦ rw (p, add_url_to_protected_set) h
  | inr (n, p) ↦
      rw (p, add_url_to_protected_set)
        (ground (
          arith,
          has-add_all k (keys.build_cache_key_variants n) (OrdSet.add n s),
          has-add k n s,
          h,
        ))
]

pub add_urls-keeps :
    (keys : Keys) (k : String) (urls s : List String)
    → OrdSet.has k s ≡ true
    → OrdSet.has k (add_urls keys urls s) ≡ true
unfolding add_urls
add_urls-keeps keys k [] s h = h
add_urls-keeps keys k (url ∷ urls) s h =
    add_urls-keeps keys k urls (add_url_to_protected_set keys url s) (add_url-keeps keys k url s h)

pub add_windows-keeps :
    (keys : Keys) (env : Env) (t : Tab) (k : String) (anchors : List ℕ) (s : List String)
    → OrdSet.has k s ≡ true
    → OrdSet.has k (add_windows keys env t anchors s) ≡ true
unfolding add_windows
add_windows-keeps keys env t k [] s h = h
add_windows-keeps keys env t k (a ∷ anchors) s h =
    add_windows-keeps keys env t k anchors (add_urls keys (window_of env t a) s)
      (add_urls-keeps keys k (window_of env t a) s h)

pub add_tab-keeps :
    (keys : Keys) (env : Env) (k : String) (t : Tab) (s : List String)
    → OrdSet.has k s ≡ true
    → OrdSet.has k (add_tab keys env t s) ≡ true
add_tab-keeps keys env k t s h = elim (Bool-cases (is_empty t.segments)) [
  | inl p ↦ rw (p, add_tab) h
  | inr p ↦ rw (p, add_tab) (add_windows-keeps keys env t k (anchors_or_none env t) s h)
]

pub add_tabs-keeps :
    (keys : Keys) (env : Env) (k : String) (ts : List Tab) (s : List String)
    → OrdSet.has k s ≡ true
    → OrdSet.has k (add_tabs keys env ts s) ≡ true
unfolding add_tabs
add_tabs-keeps keys env k [] s h = h
add_tabs-keeps keys env k (t ∷ ts) s h =
    add_tabs-keeps keys env k ts (add_tab keys env t s) (add_tab-keeps keys env k t s h)

-- The key is the normalized form of the URL, or one of its variants.
abbrev pub is_key_of : Keys → String → String → Bool
is_key_of keys n k = OrdSet.has k (n ∷ keys.build_cache_key_variants n)

add_url-has :
    (keys : Keys) (url n k : String) (s : List String)
    → keys.strip_hash url ≡ some n
    → is_key_of keys n k ≡ true
    → OrdSet.has k (add_url_to_protected_set keys url s) ≡ true
unfolding OrdSet.has
add_url-has keys url n k s p mine =
    let variants = keys.build_cache_key_variants n in
    rw (p, add_url_to_protected_set)
      (ground (arith, has-add_all k variants (OrdSet.add n s), has-add k n s, mine))

-- A URL that is added has its keys in the set.
add_urls-has :
    (keys : Keys) (url n k : String) (urls s : List String)
    → keys.strip_hash url ≡ some n
    → is_key_of keys n k ≡ true
    → OrdSet.has url urls ≡ true
    → OrdSet.has k (add_urls keys urls s) ≡ true
unfolding add_urls OrdSet.has
add_urls-has keys url n k [] s p mine h = absurd cc
add_urls-has keys url n k (u ∷ urls) s p mine h = elim (string_eq.dec u url) [
  | yes same ↦
      add_urls-keeps keys k urls (add_url_to_protected_set keys u s)
        (add_url-has keys u n k s (ap keys.strip_hash same ∙ p) mine)
  | no differ ↦
      add_urls-has keys url n k urls (add_url_to_protected_set keys u s) p mine
        (ground (arith, h, differ))
]

get-take :
    (count i : ℕ) (xs : List String) (x : String)
    → i < count
    → get_elem? xs i ≡ some x
    → OrdSet.has x (take count xs) ≡ true
unfolding OrdSet.has
get-take zero i xs x low h = absurd (omega (arith, low))
get-take (suc count) i [] x low h = absurd (ground (arith, h))
get-take (suc count) zero (y ∷ ys) x low h = ground (arith, h)
get-take (suc count) (suc i) (y ∷ ys) x low h =
    ground (arith, get-take count i ys x (omega (arith, low)) h)

-- The segment at an index between the ends is in the part of the list.
get-window :
    (start count i : ℕ) (xs : List String) (x : String)
    → start ≤ i
    → i < start + count
    → get_elem? xs i ≡ some x
    → OrdSet.has x (take count (drop start xs)) ≡ true
get-window zero count i xs x low high h = get-take count i xs x (omega (arith, high)) h
get-window (suc start) count i [] x low high h = absurd (ground (arith, h))
get-window (suc start) count zero (y ∷ ys) x low high h = absurd (omega (arith, low))
get-window (suc start) count (suc i) (y ∷ ys) x low high h =
    get-window start count i ys x (omega (arith, low)) (omega (arith, high)) h

get-bound : (i : ℕ) (xs : List String) (x : String) → get_elem? xs i ≡ some x → i < length xs
get-bound i [] x h = absurd (ground (arith, h))
get-bound zero (y ∷ ys) x h = omega arith
get-bound (suc i) (y ∷ ys) x h = omega (arith, get-bound i ys x h)

-- The window of an anchor has the segments from so many before it to so many after.
pub has-window_of :
    (env : Env) (t : Tab) (anchor i : ℕ) (url : String)
    → anchor ≤ i + past_of env t
    → i ≤ anchor + future_of env t
    → get_elem? t.segments i ≡ some url
    → OrdSet.has url (window_of env t anchor) ≡ true
unfolding window_of
has-window_of env t anchor i url low high h =
    let inside = get-bound i t.segments url h in
    let start = anchor - past_of env t in
    let end = min (length t.segments - 1) (anchor + future_of env t) in
    get-window start (end + 1 - start) i t.segments url (omega (arith, low))
      (omega (arith, low, high, inside)) h

has-add_windows :
    (keys : Keys) (env : Env) (t : Tab) (url n k : String) (anchor : ℕ) (anchors : List ℕ)
    (s : List String)
    → keys.strip_hash url ≡ some n
    → is_key_of keys n k ≡ true
    → OrdSet.has anchor anchors ≡ true
    → OrdSet.has url (window_of env t anchor) ≡ true
    → OrdSet.has k (add_windows keys env t anchors s) ≡ true
unfolding add_windows OrdSet.has
has-add_windows keys env t url n k anchor [] s p mine among h = absurd cc
has-add_windows keys env t url n k anchor (a ∷ anchors) s p mine among h =
    elim (nat_eq.dec a anchor) [
      | yes same ↦ add_windows-keeps keys env t k anchors (add_urls keys (window_of env t a) s) (
          add_urls-has keys url n k (window_of env t a) s p mine
            (ap (λ b. OrdSet.has url (window_of env t b)) same ∙ h))
      | no differ ↦
          has-add_windows keys env t url n k anchor anchors (add_urls keys (window_of env t a) s) p
            mine (ground (arith, among, differ)) h
    ]

-- The tabs have this one.
abbrev pub Among : Tab → List Tab → Type 0
Among t [] = ⊥
Among t (u ∷ ts) = (u ≡ t) ⊎ Among t ts

is_empty-get :
    (i : ℕ) (xs : List String) (x : String) → get_elem? xs i ≡ some x → is_empty xs ≡ false
is_empty-get i [] x h = absurd (ground (arith, h))
is_empty-get i (y ∷ ys) x h = refl

pub has-add_tabs :
    (keys : Keys) (env : Env) (t : Tab) (url n k : String) (anchor i : ℕ) (ts : List Tab)
    (s : List String)
    → Among t ts
    → keys.strip_hash url ≡ some n
    → is_key_of keys n k ≡ true
    → OrdSet.has anchor (anchors_or_none env t) ≡ true
    → anchor ≤ i + past_of env t
    → i ≤ anchor + future_of env t
    → get_elem? t.segments i ≡ some url
    → OrdSet.has k (add_tabs keys env ts s) ≡ true
unfolding add_tabs
has-add_tabs keys env t url n k anchor i [] s there p mine among low high h = absurd there
has-add_tabs keys env t url n k anchor i (u ∷ ts) s (inl same) p mine among low high h =
    let added : OrdSet.has k (add_tab keys env t s) ≡ true =
      rw (is_empty-get i t.segments url h, add_tab)
        (has-add_windows keys env t url n k anchor (anchors_or_none env t) s p mine among
          (has-window_of env t anchor i url low high h)) in
    add_tabs-keeps keys env k ts (add_tab keys env u s)
      (ap (λ v. OrdSet.has k (add_tab keys env v s)) same ∙ added)
has-add_tabs keys env t url n k anchor i (u ∷ ts) s (inr there) p mine among low high h =
    has-add_tabs keys env t url n k anchor i ts (add_tab keys env u s) there p mine among low high h

-- A row is protected if its key is one of a segment in the window of an anchor of a tab.
pub window-protected :
    (keys : Keys) (env : Env) (t : Tab) (url n row k : String) (anchor i : ℕ) (ts : List Tab)
    (inflight : List (String × ℕ))
    → Among t ts
    → keys.strip_hash url ≡ some n
    → is_key_of keys n k ≡ true
    → OrdSet.has anchor (anchors_or_none env t) ≡ true
    → anchor ≤ i + past_of env t
    → i ≤ anchor + future_of env t
    → get_elem? t.segments i ≡ some url
    → keys.strip_hash row ≡ some k
    → is_url_guard_ring_protected keys row (collect_tier_a_protected_urls keys env ts inflight)
      ≡ true
unfolding is_url_guard_ring_protected collect_tier_a_protected_urls
    collect_guard_ring_protected_urls
window-protected keys env t url n row k anchor i ts inflight there p mine among low high h q =
    let ring = has-add_tabs keys env t url n k anchor i ts [] there p mine among low high h in
    let held = collect_consumer_protected_urls keys inflight in
    let all : OrdSet.has k (OrdSet.add_all held (add_tabs keys env ts [])) ≡ true =
      ground (arith, has-add_all k held (add_tabs keys env ts []), ring) in
    rw (q, is_url_guard_ring_protected) (rw all refl)
