-- ===== src/ApiServer/Ids/Printing.antt =====
-- A header of ids that were printed is read as these ids.
use api_firewall.Base.{
  ◌≡◌, refl, sym, ap, ◌∙◌, inl, inr, ℕ, ◌+◌, ◌*◌, ◌^◌, ◌<◌, true, false, Bool-cases, Option, none,
  some, List, [], ◌∷◌, ◌++◌, Str, split, trim_space, All, ◌==◌, if◌then◌else◌, append_assoc,
  append_nil, trim_space_lem, split-part, split-last, arith,
}
use api_firewall.Waf.Header.{itoa}
use api_firewall.Waf.Header.Digits.{IsDigit, itoa-IsDigit, itoa-cons, itoa-value}
use api_firewall.Storage.{Storage, is_loaded}
use api_firewall.ApiServer.Ids.{
  ℤ, pos, is_digit, digits_value, parse_digits, positive, atoi, identified, not_ready, add_key,
  sort_in, scan_ids, arranged, identify, get_wallarm_schema_id,
}

-- The ids, with commas between them.
abbrev pub print_ids : ℕ → List ℕ → Str
print_ids id [] = itoa id
print_ids id (next ∷ ids) = itoa id ++ b',' ∷ print_ids next ids

All-map : {P Q : ℕ → Type 0} → ((c : ℕ) → P c → Q c) → (s : Str) → All P s → All Q s
All-map f [] p = tt
All-map f (c ∷ s) (q, p) = (f c q, All-map f s p)

digit-cons :
    (m d : ℕ) (s : Str) → d < 10 → digits_value m ((b'0' + d) ∷ s) ≡ digits_value (m * 10 + d) s
unfolding digits_value is_digit
digit-cons m d s h =
    let digit : is_digit (b'0' + d) ≡ true = ground arith in
    rw digit (ap (λ k. digits_value (m * 10 + k) s) (omega arith))

in_range : (n : ℕ) → n < 2 ^ 63 → positive (some n) ≡ some (pos n)
unfolding positive
in_range n h = ground arith

atoi-digits :
    (s : Str) (n : ℕ)
    → All IsDigit s
    → (a : ℕ) × (t : Str) × (s ≡ a ∷ t)
    → digits_value 0 s ≡ some n
    → n < 2 ^ 63
    → atoi s ≡ some (pos n)
unfolding atoi parse_digits
atoi-digits [] n p (a, t, q) e h = absurd (ground arith)
atoi-digits (c ∷ s) n (d, p) q e h =
    let no_minus : (c == b'-') ≡ false = ground arith in
    let no_plus : (c == b'+') ≡ false = ground arith in
    rw (no_minus, no_plus) (ap positive e ∙ in_range n h)

atoi-itoa : (n : ℕ) → n < 2 ^ 63 → atoi (itoa n) ≡ some (pos n)
unfolding digits_value
atoi-itoa n h =
    atoi-digits (itoa n) n (itoa-IsDigit n) (itoa-cons n) (itoa-value digits_value digit-cons n) h

trimmed : (n : ℕ) → trim_space (itoa n) ≡ itoa n
trimmed n = trim_space_lem (itoa n) (All-map (λ c d. ground (arith, d)) (itoa n) (itoa-IsDigit n))

no_comma : (n : ℕ) → All (λ c. (c == b',') ≡ false) (itoa n)
no_comma n = All-map (λ c d. ground (arith, d)) (itoa n) (itoa-IsDigit n)

module _ (s : Storage) where
  sort_all : List ℕ → List ℕ × List ℤ → List ℕ × List ℤ
  sort_all [] acc = acc
  sort_all (id ∷ ids) acc = sort_all ids (sort_in s (pos id) acc)

  scan_ids-step :
      (id : ℕ) (parts : List Str) (acc : List ℕ × List ℤ)
      → id < 2 ^ 63
      → scan_ids s (itoa id ∷ parts) acc ≡ scan_ids s parts (sort_in s (pos id) acc)
  unfolding scan_ids
  scan_ids-step id parts acc h =
      let continue : Option ℤ → Option (List ℕ × List ℤ) =
        λ o. elim o [ none ↦ none | some i ↦ scan_ids s parts (sort_in s i acc) ] in
      ap (λ t. continue (atoi t)) (trimmed id) ∙ ap continue (atoi-itoa id h)

  scan_ids-print :
      (id : ℕ) (ids : List ℕ) (acc : List ℕ × List ℤ)
      → All (λ i. i < 2 ^ 63) (id ∷ ids)
      → scan_ids s (split (print_ids id ids) b',') acc ≡ some (sort_all (id ∷ ids) acc)
  unfolding scan_ids sort_all
  scan_ids-print id [] acc (h, r) =
      ap (λ parts. scan_ids s parts acc) (split-last (itoa id) b',' (no_comma id))
      ∙ scan_ids-step id [] acc h
  scan_ids-print id (next ∷ ids) acc (h, r) =
      ap (λ parts. scan_ids s parts acc)
        (split-part (itoa id) (print_ids next ids) b',' (no_comma id))
      ∙ scan_ids-step id (split (print_ids next ids) b',') acc h
      ∙ scan_ids-print next ids (sort_in s (pos id) acc) r

  -- The ids that are loaded, each once, after those that are there.
  abbrev pub loaded_keys : List ℕ → List ℕ → List ℕ
  loaded_keys keys [] = keys
  loaded_keys keys (id ∷ ids) = loaded_keys (if is_loaded s id then add_key keys id else keys) ids

  abbrev pub unloaded : List ℕ → List ℤ
  unloaded [] = []
  unloaded (id ∷ ids) = if is_loaded s id then unloaded ids else pos id ∷ unloaded ids

  sort_all_lem :
      (ids keys : List ℕ) (rest : List ℤ)
      → sort_all ids (keys, rest) ≡ (loaded_keys keys ids, rest ++ unloaded ids)
  unfolding sort_all sort_in
  sort_all_lem [] keys rest = ap (λ r. (keys, r)) (sym (append_nil rest))
  sort_all_lem (id ∷ ids) keys rest = elim (Bool-cases (is_loaded s id)) [
    | inl e ↦ rw e (sort_all_lem ids (add_key keys id) rest)
    | inr e ↦ rw e (
        sort_all_lem ids keys (rest ++ pos id ∷ [])
        ∙ ap (λ r. (loaded_keys keys ids, r)) (append_assoc rest (pos id ∷ []) (unloaded ids)))
  ]

  print_ids-cons : (id : ℕ) (ids : List ℕ) → (a : ℕ) × (t : Str) × (print_ids id ids ≡ a ∷ t)
  print_ids-cons id [] = itoa-cons id
  print_ids-cons id (next ∷ ids) =
      let (a, t, e) = itoa-cons id in
      (a, t ++ b',' ∷ print_ids next ids, ap (λ u. u ++ b',' ∷ print_ids next ids) e)

  module _ (arrange : List ℕ → List ℕ) where
    identify-cons :
        (header : Str)
        → (a : ℕ) × (t : Str) × (header ≡ a ∷ t)
        → identify s arrange header ≡ arranged s arrange (scan_ids s (split header b',') ([], []))
    unfolding identify
    identify-cons [] (a, t, e) = absurd (ground (arith, e))
    identify-cons (c ∷ header) e = refl

    -- A header that is made of the decimal digits of ids below 2^63, with commas between them, is read
    -- as these ids, if the database is ready: those whose schema is loaded, each once, in the order
    -- that the loop over the map takes, and the others as often and in the order they stand there.
    pub get_wallarm_schema_id-print_ids :
        (id : ℕ) (ids : List ℕ)
        → s.is_ready ≡ true
        → All (λ i. i < 2 ^ 63) (id ∷ ids)
        → get_wallarm_schema_id s arrange (print_ids id ids)
          ≡ identified (arrange (loaded_keys [] (id ∷ ids))) (unloaded (id ∷ ids))
    unfolding get_wallarm_schema_id arranged
    get_wallarm_schema_id-print_ids id ids ready h =
        ap (λ b. if b then identify s arrange (print_ids id ids) else not_ready) ready
        ∙ identify-cons (print_ids id ids) (print_ids-cons id ids)
        ∙ ap (arranged s arrange)
            (scan_ids-print id ids ([], []) h ∙ ap some (sort_all_lem (id ∷ ids) [] []))
