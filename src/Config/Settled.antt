-- ===== src/Config/Settled.antt =====
-- A document that `_interpolate` has returned has no reference left.
use openai_ipmi_proxy.Prelude.{ℕ, suc, ◌≡◌, refl, String, false, none, string_eq, arith, ◌∙◌}
use Prim.Native.Char.{Char}
use openai_ipmi_proxy.Config.Result.{
  after_ok, ok, ◌>>=◌, Ensures, Ensures-ok, Ensures-bind, Ensures-after,
}
use openai_ipmi_proxy.Config.Node.{
  Node, null, bool, int, float, text, other, list, mapping, Items, nil, cons, Fields, end, field,
}
use openai_ipmi_proxy.Config.Environ.{Environ}
use openai_ipmi_proxy.Config.Interpolate.{
  begins, match_at, sub, has_marker, interpolate_text, key_path, index_path, interpolate,
  interpolate_items, interpolate_fields,
}

unmarked_match :
    (c : Char) (s : String) → has_marker (String.◌∷◌ c s) ≡ false → match_at (String.◌∷◌ c s) ≡ none
unfolding match_at has_marker begins
unmarked_match c s h = ground (arith, h)

unmarked_rest : (c : Char) (s : String) → has_marker (String.◌∷◌ c s) ≡ false → has_marker s ≡ false
unfolding has_marker
unmarked_rest c s h = ground (arith, h)

sub_unmarked :
    (environ : Environ) (place s : String) → has_marker s ≡ false → sub environ place 0 s ≡ ok s
unfolding sub ◌>>=◌
sub_unmarked environ place String.[] h = refl
sub_unmarked environ place (String.◌∷◌ c s) h =
    rw (unmarked_match c s h, sub) (rw (sub_unmarked environ place s (unmarked_rest c s h)) refl)

interpolate_unmarked :
    (environ : Environ) (place s : String)
    → has_marker s ≡ false
    → interpolate_text environ place s ≡ ok s
unfolding interpolate_text ◌>>=◌
interpolate_unmarked environ place s h = rw (sub_unmarked environ place s h) (rw h refl)

-- It stays as it is, in any environment and at any place.
abbrev TextSettled : String → Type 0
TextSettled s = (environ : Environ) (place : String) → interpolate_text environ place s ≡ ok s

interpolate_text-TextSettled :
    (environ : Environ) (place s : String) → Ensures TextSettled (interpolate_text environ place s)
unfolding interpolate_text
interpolate_text-TextSettled environ place s = Ensures-after λ result read. record {
  result = λ t e environ' place'. interpolate_unmarked environ' place' t (ground (arith, e));
}

abbrev pub Settled : {F : Type 0} → Node F → Type 0
Settled n = (environ : Environ) (place : String) → interpolate environ place n ≡ ok n

abbrev ItemsSettled : {F : Type 0} → Items F → Type 0
ItemsSettled items =
    (environ : Environ) (place : String) (i : ℕ)
    → interpolate_items environ place i items ≡ ok items

abbrev FieldsSettled : {F : Type 0} → Fields F → Type 0
FieldsSettled fields =
    (environ : Environ) (place : String) → interpolate_fields environ place fields ≡ ok fields

mutual
  unfolding interpolate

  interpolate-Settled :
      {F : Type 0} (environ : Environ) (place : String) (n : Node F)
      → Ensures Settled (interpolate environ place n)
  interpolate-Settled environ place (text s) =
      Ensures-bind (interpolate_text-TextSettled environ place s)
        λ t settled. Ensures-ok (text t) (λ environ' place'. after_ok _ (settled environ' place'))
  interpolate-Settled environ place (list items) =
      Ensures-bind (interpolate_items-ItemsSettled environ place 0 items) λ items' settled.
        Ensures-ok (list items') (λ environ' place'. after_ok _ (settled environ' place' 0))
  interpolate-Settled environ place (mapping fields) =
      Ensures-bind (interpolate_fields-FieldsSettled environ place fields) λ fields' settled.
        Ensures-ok (mapping fields') (λ environ' place'. after_ok _ (settled environ' place'))
  interpolate-Settled environ place null = Ensures-ok null (λ environ' place'. refl)
  interpolate-Settled environ place (bool b) = Ensures-ok (bool b) (λ environ' place'. refl)
  interpolate-Settled environ place (int n) = Ensures-ok (int n) (λ environ' place'. refl)
  interpolate-Settled environ place (float x) = Ensures-ok (float x) (λ environ' place'. refl)
  interpolate-Settled environ place (other b) = Ensures-ok (other b) (λ environ' place'. refl)

  interpolate_items-ItemsSettled :
      {F : Type 0} (environ : Environ) (place : String) (i : ℕ) (items : Items F)
      → Ensures ItemsSettled (interpolate_items environ place i items)
  interpolate_items-ItemsSettled environ place i nil = Ensures-ok nil (λ environ' place' j. refl)
  interpolate_items-ItemsSettled environ place i (cons v items) =
      Ensures-bind (interpolate-Settled environ (index_path place i) v) λ v' first.
        Ensures-bind (interpolate_items-ItemsSettled environ place (suc i) items) λ items' others.
          Ensures-ok (cons v' items') (λ environ' place' j.
            after_ok _ (first environ' (index_path place' j))
            ∙ after_ok _ (others environ' place' (suc j)))

  interpolate_fields-FieldsSettled :
      {F : Type 0} (environ : Environ) (place : String) (fields : Fields F)
      → Ensures FieldsSettled (interpolate_fields environ place fields)
  interpolate_fields-FieldsSettled environ place end = Ensures-ok end (λ environ' place'. refl)
  interpolate_fields-FieldsSettled environ place (field k v fields) =
      Ensures-bind (interpolate-Settled environ (key_path place k) v) λ v' first.
        Ensures-bind (interpolate_fields-FieldsSettled environ place fields) λ fields' others.
          Ensures-ok (field k v' fields') (λ environ' place'.
            after_ok _ (first environ' (key_path place' k)) ∙ after_ok _ (others environ' place'))

-- A document that `_interpolate` returns has nothing left to replace, however deep its texts stand: interpolated again, in any environment, it comes back as it is.
pub interpolate_again :
    {F : Type 0} (environ : Environ) (place : String) (n result : Node F)
    → interpolate environ place n ≡ ok result
    → (environ' : Environ) (place' : String) → interpolate environ' place' result ≡ ok result
interpolate_again environ place n = (interpolate-Settled environ place n).result
