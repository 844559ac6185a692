-- ===== src/Config/Valid/Parts.antt =====
-- What the builders of the sections ensure.
use openai_ipmi_proxy.Prelude.{
  ◌≡◌, refl, String, Bool, true, false, if◌then◌else◌, string_eq, nat_eq, arith,
}
use openai_ipmi_proxy.Prelude.Lists.{contains}
use openai_ipmi_proxy.Prelude.Text.{starts_with_slash, starts_with, concat}
use openai_ipmi_proxy.Config.Result.{Ensures, Ensures-ok, Ensures-bind, Ensures-after}
use openai_ipmi_proxy.Config.Node.{Fields, Floats}
use openai_ipmi_proxy.Config.Sections.{
  or_text, Outside, validate_store_path, build_proxy, rooted, build_readiness, build_session,
  build_status, build_children,
}
use openai_ipmi_proxy.Config.Rules.{
  OrderedLiterals, Creatable, IsProxy, IsReadiness, IsSession, IsStatus, IsChildren,
}
use openai_ipmi_proxy.Config.Valid.Helpers.{get_enum-OneOf, get_int-le, get_float-NotBelow}

validate_store_path-Creatable :
    (outside : Outside) (path : String)
    → Ensures (λ done. Creatable outside path) (validate_store_path outside path)
unfolding validate_store_path
validate_store_path-Creatable outside path = record { result = λ a e. ground (arith, e) }

rooted_if :
    (path : String) (test : Bool)
    → starts_with path "/" ≡ test
    → starts_with (if test then path else concat "/" path) "/" ≡ true
rooted_if path true h = h
rooted_if path false h = starts_with_slash path

rooted_lem : (path : String) → starts_with (rooted path) "/" ≡ true
rooted_lem path = rooted_if path (starts_with path "/") refl

module _ {F : Type 0} (floats : Floats F) (ordered : OrderedLiterals floats) where
  pub build_session-IsSession :
      (raw : Fields F) (place : String)
      → Ensures (IsSession floats) (build_session floats raw place)
  unfolding build_session contains
  build_session-IsSession raw place = Ensures-after λ requests e.
      Ensures-bind (get_enum-OneOf raw _ place _ _ refl) λ mode known.
        Ensures-bind (get_float-NotBelow floats _ place 0 raw _ ordered (omega arith))
          λ window natural.
            Ensures-bind (get_float-NotBelow floats _ place _ raw _ ordered (omega arith))
              λ expiry positive. Ensures-after λ immediate e'. Ensures-ok _ (record {
                mode_known = known;
                window_natural = natural;
                expiry_positive = positive;
              })

  pub build_readiness-IsReadiness :
      (raw : Fields F) (place : String)
      → Ensures (IsReadiness floats) (build_readiness floats raw place)
  unfolding build_readiness contains
  build_readiness-IsReadiness raw place = Ensures-after λ path e.
      Ensures-bind (get_enum-OneOf raw _ place _ _ refl) λ method known.
        Ensures-bind (get_float-NotBelow floats _ place _ raw _ ordered (omega arith))
          λ interval first.
            Ensures-bind (get_float-NotBelow floats _ place _ raw _ ordered (omega arith))
              λ timeout second. Ensures-after λ statuses e'. Ensures-ok _ (record {
                path_rooted = rooted_lem (or_text path "/health");
                method_known = known;
                interval_positive = first;
                timeout_positive = second;
              })

  pub build_status-IsStatus :
      (raw : Fields F) (place : String) → Ensures (IsStatus floats) (build_status floats raw place)
  unfolding build_status contains
  build_status-IsStatus raw place = Ensures-bind (get_enum-OneOf raw _ place _ _ refl) λ kind known.
      Ensures-after λ pending_paths read_pending.
        Ensures-bind (get_int-le raw _ place _ _ (omega arith)) λ port positive.
          Ensures-after λ password read_password.
            Ensures-bind (get_float-NotBelow floats _ place _ raw _ ordered (omega arith))
              λ interval least. Ensures-after λ status_path read_status.
                Ensures-after λ session_path read_session. Ensures-ok _ (record {
                  kind_known = known;
                  port_positive = positive;
                  interval_positive = least;
                })

  pub build_proxy-IsProxy :
      (outside : Outside) (raw : Fields F)
      → Ensures (IsProxy floats outside) (build_proxy floats outside raw)
  unfolding build_proxy contains
  build_proxy-IsProxy outside raw = Ensures-after λ store_raw read_store.
      Ensures-after λ path read_path.
        Ensures-bind (validate_store_path-Creatable outside _) λ done creatable.
          Ensures-after λ host read_host.
            Ensures-bind (get_int-le raw _ _ _ _ (omega arith)) λ port positive.
              Ensures-bind (get_enum-OneOf raw _ _ _ _ refl) λ policy known.
                Ensures-bind (get_int-le raw _ _ _ _ (omega arith)) λ timeout natural.
                  Ensures-after λ headers read_headers.
                    Ensures-bind (get_float-NotBelow floats _ _ _ raw _ ordered (omega arith))
                      λ tick least.
                        Ensures-bind (get_int-le store_raw _ _ _ _ (omega arith)) λ days retained.
                          Ensures-ok _ (record {
                            port_positive = positive;
                            policy_known = known;
                            timeout_natural = natural;
                            tick_positive = least;
                            retention_natural = retained;
                            creatable = creatable;
                          })

module _ {F : Type 0} (raw : Fields F) (place : String) where
  pub build_children-IsChildren : Ensures IsChildren (build_children raw place)
  unfolding build_children contains
  build_children-IsChildren = Ensures-bind (get_enum-OneOf raw _ place _ _ refl) λ kind known.
      Ensures-bind (get_int-le raw _ place _ _ (omega arith))
        λ depth positive. Ensures-ok _ (record { kind_known = known; depth_positive = positive })
