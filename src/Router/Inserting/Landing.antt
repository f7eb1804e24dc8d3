-- ===== src/Router/Inserting/Landing.antt =====
-- A new child for the rest of a pattern without parameters, and where the search takes it.
use api_firewall.Base.{
  ℕ, zero, suc, ◌≡◌, refl, sym, ap, subst, ◌∙◌, inl, inr, Bool, true, false, Bool-cases, Option,
  none, some, List, [], ◌∷◌, ◌/◌, ◌%◌, Str, has_prefix, length, take, drop, ◌==◌, arith,
}
use api_firewall.Web.{Actions}
use api_firewall.Router.{
  Endpoint, Info, Node, node, Nodes, no_nodes, info_of, served_by, served, static_rest,
}
use api_firewall.Router.Segments.{nt_static, whole_static}
use api_firewall.Router.Segments.Starts.{IsPlain, pat_next_segment-plain, pat_param_keys-plain}
use api_firewall.Router.Groups.{
  longest_prefix, put_endpoint, or_empty, add_to_group, fresh, sort_nodes, append_node,
}
use api_firewall.Router.Groups.Order.{IsOrdered}
use api_firewall.Router.Building.{
  InsertError, built, Finish, finished, by_type, by_segment, build, attach,
}
use api_firewall.Router.Inserting.{
  full_endpoint, endpoints_with, settle_keys, set_endpoint, below_split,
}
use api_firewall.Router.Inserting.Serving.{
  Serves, Hits, Takes, HasEdge, leaf-Hits, node-Hits, append_node-HasEdge,
}

prefix-whole : (s : Str) → has_prefix s s ≡ true
unfolding has_prefix
prefix-whole [] = refl
prefix-whole (a ∷ s) = ground (arith, prefix-whole s)

drop-whole : (s : Str) → drop (length s) s ≡ []
drop-whole [] = refl
drop-whole (a ∷ s) = drop-whole s

pub prefix-take : (k : ℕ) (s : Str) → has_prefix s (take k s) ≡ true
unfolding has_prefix
prefix-take zero s = ground arith
prefix-take (suc k) [] = refl
prefix-take (suc k) (a ∷ s) = ground (arith, prefix-take k s)

pub drop-taken : (k : ℕ) (s : Str) → drop (length (take k s)) s ≡ drop k s
drop-taken zero s = refl
drop-taken (suc k) [] = refl
drop-taken (suc k) (a ∷ s) = drop-taken k s

pub prefix-common : (s p : Str) → (longest_prefix s p == length p) ≡ true → has_prefix s p ≡ true
unfolding longest_prefix has_prefix
prefix-common [] [] e = refl
prefix-common [] (b ∷ p) e = absurd (ground (arith, e))
prefix-common (a ∷ s) [] e = refl
prefix-common (a ∷ s) (b ∷ p) e = elim (Bool-cases (a == b)) [
  | inl h ↦ ground (arith, h, e, prefix-common s p)
  | inr h ↦ absurd (ground (arith, h, e))
]

module _ (H : Type 0) where
  static_rest-some :
      (i : Info H) (s : Str)
      → has_prefix s i.prefix ≡ true
      → static_rest H i s ≡ some (drop (length i.prefix) s)
  unfolding static_rest
  static_rest-some i s e = rw e refl

  pub build-plain :
      (compile : Str → Option (Str → Bool)) (f : ℕ) (n : Node H) (s : Str) (finish : Finish H)
      → IsPlain s
      → build H compile (suc f) n s finish ≡ built nt_static (finish n).0 (finish n).1
  unfolding build by_segment by_type finished whole_static
  build-plain compile f n s finish p =
      ap (λ g. by_segment H compile g n s finish (λ m r. build H compile f m r finish))
        (pat_next_segment-plain s p)

  module _ (compile : Str → Option (Str → Bool)) (methods : List ℕ) (method : ℕ)
      (actions : Option Actions) (handler : H) (pattern : Str) where
    -- The endpoint of the route.
    abbrev pub endpoint : Endpoint H
    endpoint = record {
      handler = some handler;
      pattern = pattern;
      actions = actions;
      param_keys = [];
    }

    abbrev put : List (ℕ × Endpoint H) → List (ℕ × Endpoint H)
    put es =
        put_endpoint H method (full_endpoint H compile methods method actions handler pattern []) es

    put-served : (es : List (ℕ × Endpoint H)) → served H (put es) method ≡ some endpoint
    unfolding served served_by put_endpoint full_endpoint
    put-served [] = ground arith
    put-served ((m, e) ∷ es) = elim (Bool-cases (m == method)) [
      | inl h ↦ rw (h, h) refl
      | inr h ↦ rw (h, h) (put-served es)
    ]

    put_info : Info H → Info H
    put_info i = record i { endpoints = some (put (or_empty H i.endpoints)) }

    abbrev pub set : Node H → Node H × Option InsertError
    set = set_endpoint H compile methods method actions handler pattern

    module _ (is_plain : IsPlain pattern) (no_stub : (method % 2 == 1) ≡ false)
        (not_all : (method / 2 % 512 == 511) ≡ false) where
      set-node :
          (i : Info H) (st re pa ca : Nodes H)
          → set (node i st re pa ca) ≡ (node (put_info i) st re pa ca, none)
      unfolding set_endpoint settle_keys endpoints_with put_info
      set-node i st re pa ca = rw (pat_param_keys-plain pattern is_plain, no_stub, not_all) refl

      put-Serves : (i : Info H) → Serves H method endpoint (put_info i)
      unfolding put_info
      put-Serves i = (put (or_empty H i.endpoints), refl, put-served (or_empty H i.endpoints))

      -- A node after the insertion of the rest `s` of the pattern behind it.
      pub record Lands (s : Str) (n : Node H) (r : Node H × Option InsertError) : Type 0 where
        pub hits : Hits H method endpoint s r.0
        pub prefix : (info_of H r.0).prefix ≡ (info_of H n).prefix
        pub label : (info_of H r.0).label ≡ (info_of H n).label
        pub succeeds : r.1 ≡ none

      pub set-Lands : (n : Node H) → Lands [] n (set n)
      unfolding put_info
      set-Lands (node i st re pa ca) =
          subst (Lands [] (node i st re pa ca)) (sym (set-node i st re pa ca)) (record {
            hits = leaf-Hits H method endpoint (node (put_info i) st re pa ca) (put-Serves i);
            prefix = refl;
            label = refl;
            succeeds = refl;
          })

      abbrev child_info : ℕ → Str → Info H
      child_info c t = record { prefix = c ∷ t; label = c; tail = 0; rex = none; endpoints = none }

      abbrev child : ℕ → Str → Node H
      child c t =
          node
            (put_info
              (record { prefix = c ∷ t; label = c; tail = 0; rex = none; endpoints = none }))
            no_nodes no_nodes no_nodes no_nodes

      child-Takes : (c : ℕ) (t : Str) → Takes H method endpoint c t (child c t)
      unfolding put_info
      child-Takes c t = (
        refl,
        [],
        static_rest-some
              (put_info
                (record { prefix = c ∷ t; label = c; tail = 0; rex = none; endpoints = none }))
              (c ∷ t) (prefix-whole (c ∷ t))
            ∙ ap some (drop-whole (c ∷ t)),
        leaf-Hits H method endpoint (child c t) (put-Serves (child_info c t)),
      )

      -- A new child for the pattern.
      attach-new :
          (i : Info H) (st re pa ca : Nodes H) (f c : ℕ) (t : Str)
          → IsPlain (c ∷ t)
          → attach H compile
              (node i st re pa ca)
              (build H compile (suc f) (fresh H c 0 (c ∷ t)) (c ∷ t) set)
            ≡ (node i (sort_nodes H (append_node H st (child c t))) re pa ca, none)
      unfolding attach add_to_group
      attach-new i st re pa ca f c t p =
          ap (attach H compile (node i st re pa ca))
            (build-plain compile f (fresh H c 0 (c ∷ t)) (c ∷ t) set p)
          ∙ ap (λ r. attach H compile (node i st re pa ca) (built nt_static r.0 r.1))
              (set-node
                (record { prefix = c ∷ t; label = c; tail = 0; rex = none; endpoints = none })
                no_nodes no_nodes no_nodes no_nodes)

      pub edge-Lands :
          (i : Info H) (st st' re pa ca : Nodes H) (e : Option InsertError) (c : ℕ) (t : Str)
          → IsOrdered H (node i st' re pa ca)
          → HasEdge H method endpoint c t st'
          → e ≡ none
          → Lands (c ∷ t) (node i st re pa ca) (node i st' re pa ca, e)
      edge-Lands i st st' re pa ca e c t o h q = record {
        hits = node-Hits H method endpoint c t i st' re pa ca o.0 h;
        prefix = refl;
        label = refl;
        succeeds = q;
      }

      pub attach-Lands :
          (i : Info H) (st re pa ca : Nodes H) (f c : ℕ) (t : Str)
          → IsPlain (c ∷ t)
          → IsOrdered H
              (attach H compile
                (node i st re pa ca)
                (build H compile (suc f) (fresh H c 0 (c ∷ t)) (c ∷ t) set)).0
          → Lands (c ∷ t) (node i st re pa ca) (
              attach H compile
                (node i st re pa ca)
                (build H compile (suc f) (fresh H c 0 (c ∷ t)) (c ∷ t) set))
      attach-Lands i st re pa ca f c t p o =
          let eq = attach-new i st re pa ca f c t p in
          subst (Lands (c ∷ t) (node i st re pa ca)) (sym eq) (
            edge-Lands i st _ re pa ca none c t (subst (λ r. IsOrdered H r.0) eq o)
              (append_node-HasEdge H method endpoint c t st (child c t) (child-Takes c t)) refl)

      pub below_split-Lands :
          (n : Node H) (s : Str)
          → IsPlain s
          → IsOrdered H (below_split H compile methods method actions handler pattern n s).0
          → Lands s n (below_split H compile methods method actions handler pattern n s)
      unfolding below_split
      below_split-Lands n [] p o = set-Lands n
      below_split-Lands (node i st re pa ca) (c ∷ t) p o =
          attach-Lands i st re pa ca (suc (length t)) c t p o

      -- A changed node that the search takes.
      pub Lands-Takes :
          (n : Node H) (r : Node H × Option InsertError) (c : ℕ) (t rest p : Str)
          → Lands rest n r
          → (info_of H n).label ≡ c
          → (info_of H n).prefix ≡ p
          → has_prefix (c ∷ t) p ≡ true
          → drop (length p) (c ∷ t) ≡ rest
          → Takes H method endpoint c t r.0
      Lands-Takes n r c t rest p l h q b d = (
        l.label ∙ h,
        rest,
        static_rest-some (info_of H r.0) (c ∷ t) (ap (has_prefix (c ∷ t)) (l.prefix ∙ q) ∙ b)
            ∙ ap some (ap (λ u. drop (length u) (c ∷ t)) (l.prefix ∙ q) ∙ d),
        l.hits,
      )
