-- ===== src/Router/Inserting/Order.antt =====
-- The insertion of a route keeps the order of the tree.
use api_firewall.Base.{
  ℕ, ◌≡◌, refl, ◌∙◌, inl, inr, Bool, false, ◌||◌, Bool-cases, Option, List, [], ◌∷◌, Str, length,
  drop, ◌==◌, arith,
}
use api_firewall.Web.{Actions}
use api_firewall.Router.{Node, node, Nodes, no_nodes, add_node, info_of}
use api_firewall.Router.Segments.{
  NodeType, nt_static, nt_regexp, nt_param, nt_catch_all, is_static, Segment, pat_next_segment,
}
use api_firewall.Router.Segments.Starts.{pat_next_segment-Starts}
use api_firewall.Router.Groups.{longest_prefix}
use api_firewall.Router.Groups.Order.{IsOrdered, AllOrdered}
use api_firewall.Router.Building.{InsertError}
use api_firewall.Router.Inserting.{matches, split, plain, next_segment, insert, insert_group}
use api_firewall.Router.Inserting.Stays.{Stays, entries-Lacks, set-Stays}
use api_firewall.Router.Inserting.Splitting.{split-Stays}
use api_firewall.Router.Inserting.Following.{
  Edge, Entries, FoundStatic, FoundOther, changed-static, is_wild, kept-static, kept-other,
  follow_static-Stays, choose_wild-Stays, matches-label,
}

module _ (H : Type 0) where
  module _ (compile : Str → Option (Str → Bool)) (methods : List ℕ) (method : ℕ)
      (actions : Option Actions) (handler : H) (pattern : Str) where
    abbrev into : Node H → Str → Node H × Option InsertError
    into = insert H compile methods method actions handler pattern

    abbrev into_group : NodeType → ℕ → Segment → Nodes H → Str → Edge H
    into_group = insert_group H compile methods method actions handler pattern

    abbrev split_at : Node H → ℕ → ℕ → Str → Node H × Option InsertError
    split_at = split H compile methods method actions handler pattern

    -- The edges of a node's groups.
    abbrev edges : Nodes H → Nodes H → Nodes H → Nodes H → ℕ → Str → Segment → NodeType → Edge H
    edges st re pa ca c s g typ = elim typ [
      | nt_static ↦ into_group nt_static c g st s
      | nt_regexp ↦ into_group nt_regexp c g re s
      | nt_param ↦ into_group nt_param c g pa s
      | nt_catch_all ↦ into_group nt_catch_all c g ca s
    ]

    abbrev plain_segment : Segment
    plain_segment = plain H compile methods method actions handler pattern

    mutual
      unfolding insert next_segment plain

      pub insert-Stays : (n : Node H) (s : Str) → IsOrdered H n → Stays H n (into n s).0
      insert-Stays (node i st re pa ca) [] o =
          set-Stays H compile methods method actions handler pattern (node i st re pa ca) o
      insert-Stays (node i st re pa ca) (c ∷ t) (up, es, a, b, p, q) =
          elim (Bool-cases (c == b'{' || c == b'*')) [
            | inl w ↦ rw w (
                choose_wild-Stays H compile methods method actions handler pattern
                  (pat_next_segment (c ∷ t)) (node i st re pa ca) c t (edges st re pa ca c (c ∷ t))
                  (up, es, a, b, p, q) (entries-Lacks H c st es (is_wild H c w))
                  (c, t, refl, is_wild H c w) (pat_next_segment-Starts (c ∷ t))
                  (λ g. (
                    group-other nt_regexp c g re (c ∷ t) refl b,
                    group-other nt_param c g pa (c ∷ t) refl p,
                    group-other nt_catch_all c g ca (c ∷ t) refl q,
                  )))
            | inr w ↦ rw w (
                follow_static-Stays H compile methods method actions handler pattern
                  (node i st re pa ca) c plain_segment t (edges st re pa ca c (c ∷ t) plain_segment)
                  (up, es, a, b, p, q) (inr refl) (group-static c plain_segment st t refl a es))
          ]

      group-static :
          (c : ℕ) (g : Segment) (ns : Nodes H) (t : Str)
          → g.tail ≡ 0
          → AllOrdered H ns
          → Entries H ns
          → FoundStatic H c ns (into_group nt_static c g ns (c ∷ t))
      group-static c g no_nodes t e a es = tt
      group-static c g (add_node n ns) t e (o, a) (q, es) =
          let k = longest_prefix (c ∷ t) (info_of H n).prefix in
          let rest = group-static c g ns t e a es in
          elim (Bool-cases ((info_of H n).label == c)) [
            | inl h ↦ elim (Bool-cases (k == length (info_of H n).prefix)) [
              | inl z ↦
                  rw
                    (
                      matches-label H compile methods method actions handler pattern c g
                            (info_of H n) q.no_tail e
                          ∙ h,
                      z,
                    )
                    (changed-static H c n ns (into n (drop k (c ∷ t))) a q es
                      (insert-Stays n (drop k (c ∷ t)) o))
              | inr z ↦
                  rw
                    (
                      matches-label H compile methods method actions handler pattern c g
                            (info_of H n) q.no_tail e
                          ∙ h,
                      z,
                    )
                    (changed-static H c n ns (split_at n k c (c ∷ t)) a q es (
                      split-Stays H compile methods method actions handler pattern n c t o q
                        (ground (arith, h)) z))
            ]
            | inr h ↦
                rw
                  (matches-label H compile methods method actions handler pattern c g (info_of H n)
                      q.no_tail e
                    ∙ h)
                  (kept-static H compile methods method actions handler pattern c n ns _ o q
                    (ground (arith, h)) rest)
          ]

      group-other :
          (typ : NodeType) (c : ℕ) (g : Segment) (ns : Nodes H) (s : Str)
          → is_static typ ≡ false
          → AllOrdered H ns
          → FoundOther H (into_group typ c g ns s)
      group-other typ c g no_nodes s w a = tt
      group-other typ c g (add_node n ns) s w (o, a) =
          elim (Bool-cases
            (matches H compile methods method actions handler pattern typ c g (info_of H n))) [
              | inl h ↦ rw (h, w) ((insert-Stays n (drop g.finish s) o).ordered, a)
              | inr h ↦ rw h (
                  kept-other H compile methods method actions handler pattern n _ o
                    (group-other typ c g ns s w a))
            ]
