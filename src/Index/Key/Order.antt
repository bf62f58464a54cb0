-- ===== src/Index/Key/Order.antt =====
-- The byte order of the fixed-layout keys is the order of their fields, first field first.
use rgraph.Prelude.{ℕ, compare, ◌≡◌}
use rgraph.Prelude.Bytes.{IsU64, IsU128}
use rgraph.Prelude.Bytes.Lex.{then_cmp, lex_cmp_two, lex_cmp_three}
use rgraph.Index.Key.{
  cmp_keys, edge_adjacency_key, label_index_key, type_index_key, rdf_spo_key, rdf_pos_key,
  rdf_osp_key,
}

-- Adjacency keys over u128 ids and u64 types sort by source, then by type, then by target.
pub cmp_keys-edge_adjacency_key :
    (s t d s' t' d' : ℕ)
    → IsU128 s × IsU64 t × IsU128 d
    → IsU128 s' × IsU64 t' × IsU128 d'
    → cmp_keys (edge_adjacency_key s t d) (edge_adjacency_key s' t' d')
      ≡ then_cmp (compare s s') (then_cmp (compare t t') (compare d d'))
unfolding cmp_keys edge_adjacency_key
cmp_keys-edge_adjacency_key s t d s' t' d' h k = lex_cmp_three 16 8 16 s t d s' t' d' h k

-- Label keys and edge-type keys sort by their u64 hash or type, and then by the u128 id.
pub cmp_keys-label_type_keys :
    (l i l' i' : ℕ)
    → IsU64 l × IsU128 i
    → IsU64 l' × IsU128 i'
    → (cmp_keys (label_index_key l i) (label_index_key l' i')
        ≡ then_cmp (compare l l') (compare i i'))
      × (cmp_keys (type_index_key l i) (type_index_key l' i')
          ≡ then_cmp (compare l l') (compare i i'))
unfolding cmp_keys label_index_key type_index_key
cmp_keys-label_type_keys l i l' i' h k =
    (lex_cmp_two 8 16 l i l' i' h k, lex_cmp_two 8 16 l i l' i' h k)

-- The three keys of an RDF triple sort by the three orders of its parts that they are named for.
pub cmp_keys-rdf_keys :
    (s p o s' p' o' : ℕ)
    → IsU128 s × IsU64 p × IsU128 o
    → IsU128 s' × IsU64 p' × IsU128 o'
    → (cmp_keys (rdf_spo_key s p o) (rdf_spo_key s' p' o')
        ≡ then_cmp (compare s s') (then_cmp (compare p p') (compare o o')))
      × (cmp_keys (rdf_pos_key p o s) (rdf_pos_key p' o' s')
          ≡ then_cmp (compare p p') (then_cmp (compare o o') (compare s s')))
      × (cmp_keys (rdf_osp_key o s p) (rdf_osp_key o' s' p')
          ≡ then_cmp (compare o o') (then_cmp (compare s s') (compare p p')))
unfolding cmp_keys rdf_spo_key rdf_pos_key rdf_osp_key
cmp_keys-rdf_keys s p o s' p' o' (hs, hp, ho) (ks, kp, ko) = (
  lex_cmp_three 16 8 16 s p o s' p' o' (hs, hp, ho) (ks, kp, ko),
  lex_cmp_three 8 16 16 p o s p' o' s' (hp, ho, hs) (kp, ko, ks),
  lex_cmp_three 16 16 8 o s p o' s' p' (ho, hs, hp) (ko, ks, kp),
)
