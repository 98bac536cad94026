-- ===== src/Portmap/Mapper/Attempts.antt =====
-- One step of `try_methods`, the loop over the protocols of p2p/wireguard-p2p/linux/portmap.py.
use wireguard_p2p.Base.{◌≡◌, refl, true, false, List, [], ◌∷◌, ◌++◌, ltb}
use wireguard_p2p.Base.Text.{Text}
use wireguard_p2p.Result.{Error, ok, err, value_error, bind}
use wireguard_p2p.Portmap.{Mapping}
use wireguard_p2p.Portmap.Mapper.{
  Key, PortMapper, succeeded, record_success, Network, Method, method_name, try_method, attempt,
  try_methods,
}

module _ (net : Network) (gateway : Text) (k : Key) (method : Method) where
  pub attempt-failed :
      {e : Error} → try_method net gateway k method ≡ err e → attempt net gateway k method ≡ err e
  unfolding attempt bind
  attempt-failed failed = rw failed refl

  pub attempt-refused :
      {mapping : Mapping}
      → try_method net gateway k method ≡ ok mapping
      → ltb 0 mapping.lifetime ≡ false
      → attempt net gateway k method ≡ err value_error
  unfolding attempt bind record_success
  attempt-refused answered short = rw (answered, record_success, short) refl

  pub attempt-granted :
      {mapping : Mapping}
      → try_method net gateway k method ≡ ok mapping
      → ltb 0 mapping.lifetime ≡ true
      → attempt net gateway k method ≡ ok (succeeded k (method_name method) mapping net.recorded)
  unfolding attempt bind record_success
  attempt-granted answered long = rw (answered, record_success, long) refl

  pub try_methods-failed :
      (errors : List (Text × Error)) (methods : List Method) (m : PortMapper) {e : Error}
      → attempt net gateway k method ≡ err e
      → try_methods net gateway k errors (method ∷ methods) m
        ≡ try_methods net gateway k (errors ++ (method_name method, e) ∷ []) methods m
  unfolding try_methods
  try_methods-failed errors methods m failed = rw (try_methods, failed) refl

  pub try_methods-granted :
      (errors : List (Text × Error)) (methods : List Method) (m : PortMapper) {g : PortMapper}
      → attempt net gateway k method ≡ ok g
      → try_methods net gateway k errors (method ∷ methods) m ≡ (g, true)
  unfolding try_methods
  try_methods-granted errors methods m won = rw (try_methods, won) refl
