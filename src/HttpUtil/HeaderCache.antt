-- ===== src/HttpUtil/HeaderCache.antt =====
-- tornado/httputil.py: `_NormalizedHeaderCache`, the cache of normal forms with a bounded queue.
use tornado3_1_1_search.Base.{
  ℕ, suc, ◌≤◌, ◌≡◌, refl, ap, sym, ◌∙◌, Bool, true, false, not, ◌&&◌, none, some, is_some, List, [],
  ◌∷◌, ◌++◌, length, ltb, if◌then◌else◌, arith, Bytes, bytes_eq, bytes_eq_refl, bytes_eq→eq, Dict,
  lookup, set, remove, lookup-set, lookup-remove, option_intro, if_intro, subst, length-append,
}
use tornado3_1_1_search.HttpUtil.{normalize}

pub record HeaderCache : Type 0 where
  pub size : ℕ
  pub entries : Dict Bytes
  pub queue : List Bytes

abbrev pub empty_cache : ℕ → HeaderCache
empty_cache size = record { size = size; entries = []; queue = [] }

-- `queue.popleft()` and `del self[old_key]`, when the queue has grown too long.
forget_first : List Bytes → HeaderCache → HeaderCache
forget_first [] c = c
forget_first (old_key ∷ queue) c =
    if ltb c.size (length (old_key ∷ queue))
    then record c { queue = queue; entries = remove old_key c.entries }
    else c

missing : Bytes → HeaderCache → Bytes × HeaderCache
missing key c =
    let c' = record c {
      entries = set key (normalize key) c.entries;
      queue = c.queue ++ key ∷ [];
    } in
    (normalize key, forget_first c'.queue c')

-- `cache[key]`
pub get_normalized : Bytes → HeaderCache → Bytes × HeaderCache
get_normalized key c = elim (lookup key c.entries) [ none ↦ missing key c | some v ↦ (v, c) ]

-- The cache after some names were looked up.
pub look_up : List Bytes → HeaderCache → HeaderCache
look_up [] c = c
look_up (key ∷ keys) c = look_up keys (get_normalized key c).1

-- The keys of the entries, in order.
pub keys : Dict Bytes → List Bytes
keys [] = []
keys (entry ∷ d) = entry.0 ∷ keys d

member : Bytes → List Bytes → Bool
member key [] = false
member key (k ∷ ks) = let rest = member key ks in if bytes_eq key k then true else rest

pub distinct : List Bytes → Bool
distinct [] = true
distinct (k ∷ ks) = not (member k ks) && distinct ks

-- The queue lists the keys of the dictionary, each once and oldest first, no entry is wrong, and
-- there are `limit` of them at most.
pub record IsSound (limit : ℕ) (c : HeaderCache) : Type 0 where
  pub listed : keys c.entries ≡ c.queue
  pub once : distinct c.queue ≡ true
  pub bounded : length c.queue ≤ limit
  pub normal : (key v : Bytes) → lookup key c.entries ≡ some v → v ≡ normalize key

member-keys : (key : Bytes) (d : Dict Bytes) → member key (keys d) ≡ is_some (lookup key d)
unfolding member keys lookup
member-keys key [] = refl
member-keys key (entry ∷ d) = ground (arith, member-keys key d)

keys-set :
    (key v : Bytes) (d : Dict Bytes) → lookup key d ≡ none → keys (set key v d) ≡ keys d ++ key ∷ []
unfolding keys lookup set
keys-set key v [] h = refl
keys-set key v (entry ∷ d) h = ground (arith, keys-set key v d)

remove_absent : (key : Bytes) (d : Dict Bytes) → member key (keys d) ≡ false → remove key d ≡ d
unfolding keys member remove
remove_absent key [] h = refl
remove_absent key (entry ∷ d) h = ground (arith, remove_absent key d)

member-concat :
    (j k : Bytes) (ks : List Bytes)
    → member j (ks ++ k ∷ []) ≡ (if member j ks then true else bytes_eq j k)
unfolding member
member-concat j k [] = ground arith
member-concat j k (k' ∷ ks) = ground (arith, member-concat j k ks)

bytes_eq_sym : (s t : Bytes) → bytes_eq s t ≡ bytes_eq t s
unfolding bytes_eq
bytes_eq_sym [] [] = refl
bytes_eq_sym [] (d ∷ t) = refl
bytes_eq_sym (c ∷ s) [] = refl
bytes_eq_sym (c ∷ s) (d ∷ t) = ground (arith, bytes_eq_sym s t)

distinct-concat :
    (key : Bytes) (ks : List Bytes)
    → distinct ks ≡ true
    → member key ks ≡ false
    → distinct (ks ++ key ∷ []) ≡ true
unfolding distinct member
distinct-concat key [] d h = refl
distinct-concat key (k ∷ ks) d h =
    ground (arith, distinct-concat key ks, member-concat k key ks, bytes_eq_sym k key)

keys-remove_first :
    (key : Bytes) (ks : List Bytes) (d : Dict Bytes)
    → keys d ≡ key ∷ ks
    → distinct (key ∷ ks) ≡ true
    → keys (remove key d) ≡ ks
unfolding keys remove distinct
keys-remove_first key ks [] h once = ground arith
keys-remove_first key ks (entry ∷ d) h once = ground (arith, remove_absent key d, bytes_eq_refl key)

forget_first-IsSound :
    (queue : List Bytes) (c : HeaderCache)
    → c.queue ≡ queue
    → IsSound (suc c.size) c
    → IsSound c.size (forget_first queue c)
unfolding forget_first distinct
forget_first-IsSound [] c e h = record {
  listed = h.listed;
  once = h.once;
  bounded = ground (arith, e);
  normal = h.normal;
}
forget_first-IsSound (old ∷ queue) c e h =
    if_intro (IsSound c.size) (ltb c.size (length (old ∷ queue))) _ _
      (λ full. record {
        listed = keys-remove_first old queue c.entries (h.listed ∙ e) (ground (arith, h.once));
        once = ground (arith, h.once);
        bounded = ground (arith, h.bounded);
        normal = λ key v found. h.normal key v (ground (arith, lookup-remove key old c.entries));
      })
      (λ fits. record {
        listed = h.listed;
        once = h.once;
        bounded = ground (arith, fits, e);
        normal = h.normal;
      })

missing-IsSound :
    (key : Bytes) (c : HeaderCache)
    → lookup key c.entries ≡ none
    → IsSound c.size c
    → IsSound c.size (missing key c).1
unfolding missing
missing-IsSound key c absent h = forget_first-IsSound (c.queue ++ key ∷ []) _ refl (record {
  listed = keys-set key (normalize key) c.entries absent ∙ ap (λ q. q ++ key ∷ []) h.listed;
  once =
      distinct-concat key c.queue h.once
        (ap (member key) (sym h.listed) ∙ member-keys key c.entries ∙ ap is_some absent);
  bounded = omega (arith, length-append c.queue (key ∷ []), h.bounded);
  normal = λ k v found.
      ground (arith, lookup-set k key (normalize key) c.entries, bytes_eq→eq k key, h.normal k v);
})

get_normalized-IsSound :
    (key : Bytes) (c : HeaderCache) → IsSound c.size c → IsSound c.size (get_normalized key c).1
unfolding get_normalized
get_normalized-IsSound key c h =
    option_intro (λ r. IsSound c.size r.1) (lookup key c.entries) (missing key c) (λ v. (v, c))
      (λ absent. missing-IsSound key c absent h) (λ v found. h)

size-forget_first : (queue : List Bytes) (c : HeaderCache) → (forget_first queue c).size ≡ c.size
unfolding forget_first
size-forget_first [] c = refl
size-forget_first (old ∷ queue) c = ground arith

size_kept : (key : Bytes) (c : HeaderCache) → (get_normalized key c).1.size ≡ c.size
unfolding get_normalized missing
size_kept key c =
    option_intro (λ r. r.1.size ≡ c.size) (lookup key c.entries) (missing key c) (λ v. (v, c))
      (λ absent.
        size-forget_first (c.queue ++ key ∷ [])
          (record c { queue = c.queue ++ key ∷ []; entries = set key (normalize key) c.entries }))
      (λ v found. refl)

normal_found :
    (key : Bytes) (c : HeaderCache) → IsSound c.size c → (get_normalized key c).0 ≡ normalize key
unfolding get_normalized missing
normal_found key c h =
    option_intro (λ r. r.0 ≡ normalize key) (lookup key c.entries) (missing key c) (λ v. (v, c))
      (λ absent. refl) (λ v found. h.normal key v found)

look_up-IsSound :
    (size : ℕ) (names : List Bytes) (c : HeaderCache)
    → c.size ≡ size
    → IsSound size c
    → (look_up names c).size ≡ size × IsSound size (look_up names c)
unfolding look_up
look_up-IsSound size [] c e h = (e, h)
look_up-IsSound size (key ∷ names) c e h = look_up-IsSound size names _ (size_kept key c ∙ e) (
    subst (λ n. IsSound n (get_normalized key c).1) e
      (get_normalized-IsSound key c (subst (λ n. IsSound n c) (sym e) h)))

-- What a name is turned into, and what the cache then is.
pub record Answers (size : ℕ) (key : Bytes) (answer : Bytes × HeaderCache) : Type 0 where
  pub answered : answer.0 ≡ normalize key
  pub sound : IsSound size answer.1

-- Whatever names were looked up since the cache was made, the answer for a name is its normal form.
-- The cache never holds more names than its size, its queue lists exactly the names it holds, each
-- once, and all its entries are normal forms.
pub get_normalized-Answers :
    (size : ℕ) (earlier : List Bytes) (key : Bytes)
    → Answers size key (get_normalized key (look_up earlier (empty_cache size)))
unfolding keys distinct lookup
get_normalized-Answers size earlier key =
    let start : IsSound size (empty_cache size) = record {
      listed = refl;
      once = refl;
      bounded = omega arith;
      normal = λ k v found. ground arith;
    } in
    let before = look_up-IsSound size earlier (empty_cache size) refl start in
    let here =
      subst (λ n. IsSound n (look_up earlier (empty_cache size))) (sym before.0) before.1 in
    record {
      answered = normal_found key _ here;
      sound =
          subst (λ n. IsSound n (get_normalized key (look_up earlier (empty_cache size))).1)
            before.0 (get_normalized-IsSound key _ here);
    }
