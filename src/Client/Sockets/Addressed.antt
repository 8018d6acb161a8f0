-- ===== src/Client/Sockets/Addressed.antt =====
-- client/subscriber.py: how a container addresses its socket under the default layout.
use terok_clearance.Common.{
  ℕ, String, Bool, true, false, Option, none, some, [], ◌∷◌, map, Dict, string_eq, ◌==◌, get,
  concat, truthy, str_of_ℕ, All, if◌then◌else◌, ◌≡◌, refl, ap, ◌∙◌,
}
use terok_clearance.Wire.Paths.{
  path_parts, posix_path, join_path, runtime_dir, path_text, hub_socket,
}
use terok_clearance.Wire.Paths.Rendered.{
  IsName, has_slash, path_parts-path_text, path_parts-All, join_path-IsName,
}
use terok_clearance.Client.Sockets.{Child, second_part, parent_name, subscriber_for}

posix_path-All : (text : String) → All IsName (posix_path text).parts
unfolding posix_path
posix_path-All text = path_parts-All text "" [] (unfold has_slash in refl) tt

runtime_dir-All : (xdg : Option String) (uid : ℕ) → All IsName (runtime_dir xdg uid).parts
unfolding runtime_dir
runtime_dir-All none uid = posix_path-All (concat "/run/user/" (str_of_ℕ uid))
runtime_dir-All (some xdg) uid = go (truthy xdg)
  where
    go :
        (b : Bool)
        → All IsName
            (if b then posix_path xdg else posix_path (concat "/run/user/" (str_of_ℕ uid))).parts
    go true = posix_path-All xdg
    go false = posix_path-All (concat "/run/user/" (str_of_ℕ uid))

terok : IsName "terok"
unfolding has_slash
terok = record { whole = refl; filled = refl; no_dot = refl }

clearance : IsName "clearance"
unfolding has_slash
clearance = record { whole = refl; filled = refl; no_dot = refl }

hub_sock : IsName "hub.sock"
unfolding has_slash
hub_sock = record { whole = refl; filled = refl; no_dot = refl }

module _ (xdg : Option String) (uid : ℕ) where
  hub_socket_lem :
      (c : String)
      → IsName c
      → hub_socket xdg uid c ≡ record {
        root = (runtime_dir xdg uid).root;
        parts = "hub.sock" ∷ c ∷ "clearance" ∷ "terok" ∷ (runtime_dir xdg uid).parts;
      }
  hub_socket_lem c h =
      ap (λ p. join_path (join_path (join_path p "clearance") c) "hub.sock")
        (join_path-IsName (runtime_dir xdg uid) "terok" terok)
      ∙ ap (λ p. join_path (join_path p c) "hub.sock") (join_path-IsName _ "clearance" clearance)
      ∙ ap (λ p. join_path p "hub.sock") (join_path-IsName _ c h)
      ∙ join_path-IsName _ "hub.sock" hub_sock

  hub_socket-parent_name :
      (c : String) → IsName c → parent_name (path_text (hub_socket xdg uid c)) ≡ c
  unfolding parent_name
  hub_socket-parent_name c h =
      ap (λ p. second_part (path_parts (path_text p) "" [])) (hub_socket_lem c h)
      ∙ ap second_part (
          path_parts-path_text (runtime_dir xdg uid).root "hub.sock" _
            (hub_sock, (h, (clearance, (terok, runtime_dir-All xdg uid)))))

  abbrev pub at_sockets : Dict String Child → Dict String Child
  at_sockets children = map (λ kv. (path_text (hub_socket xdg uid kv.0), kv.1)) children

  -- Whatever the runtime directory is called, and however it is written: where the children are those
  -- of the sockets of containers under the default layout, whose ids are not empty, not a dot and
  -- without a slash, an id leads to exactly the child of its own socket, and an id that has none
  -- leads to no child.
  pub subscriber_for-get :
      (container : String) (children : Dict String Child)
      → All (λ kv. IsName kv.0) children
      → subscriber_for container (at_sockets children) ≡ get container children
  unfolding subscriber_for get
  subscriber_for-get container [] h = refl
  subscriber_for-get container ((c, child) ∷ children) h =
      ap
        (λ n. if n == container then some child else subscriber_for container (at_sockets children))
        (hub_socket-parent_name c h.0)
      ∙ ap (λ o. if c == container then some child else o)
          (subscriber_for-get container children h.1)
