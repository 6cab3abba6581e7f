-- ===== src/Server/StaticFiles/Confined.antt =====
-- Which files `serve_static` sends.
use thinger_http.Common.{
  ◌≡◌, refl, true, false, ◌&&◌, not, Option, none, some, if◌then◌else◌, if_elim, Bytes, codes,
  is_empty, starts_with, arith,
}
use thinger_http.Boost.{Boost}
use thinger_http.Libraries.{Zlib, Filesystem}
use thinger_http.Server.Exchange.{get_param}
use thinger_http.Server.Responder.{Responder}
use thinger_http.Server.Routing.{Outcome, returned, threw}
use thinger_http.Server.StaticFiles.{
  send_file, answer_not_found, answer_denied, try_index, serve_file, serve_resolved, serve_under,
  serve_static,
}

module _ ⦃b : Boost⦄ ⦃z : Zlib⦄ ⦃f : Filesystem⦄ where
  -- What the path of the request is resolved to, below `directory`.
  abbrev pub Resolves : Bytes → Responder → Bytes → Type 0
  Resolves directory t file =
      f.weakly_canonical (f.join directory (get_param (codes "path") t.exchange.params)) ≡ some file

  -- The file that the request is resolved to, which begins with `root`, the fallback file of `root`
  -- or of such a directory, or no file.
  pub data Confined (directory root fallback : Bytes) (t : Responder) (u : Responder) : Type 0 where
    sends :
        (file : Bytes)
        → Resolves directory t file
        → starts_with root file ≡ true
        → f.is_regular_file file ≡ true
        → u ≡ send_file false file t
        → Confined directory root fallback t u
    sends_root_index :
        f.is_regular_file (f.join root fallback) ≡ true
        → u ≡ send_file false (f.join root fallback) t
        → Confined directory root fallback t u
    sends_index :
        (base : Bytes)
        → Resolves directory t base
        → starts_with root base ≡ true
        → f.is_directory base ≡ true
        → f.is_regular_file (f.join base fallback) ≡ true
        → u ≡ send_file false (f.join base fallback) t
        → Confined directory root fallback t u
    missing : u ≡ answer_not_found t → Confined directory root fallback t u
    denied : u ≡ answer_denied t → Confined directory root fallback t u

  try_index-Confined :
      (directory root fallback base : Bytes) (t otherwise : Responder)
      → (f.is_regular_file (f.join base fallback) ≡ true
          → Confined directory root fallback t (send_file false (f.join base fallback) t))
      → Confined directory root fallback t otherwise
      → Confined directory root fallback t (try_index base fallback t otherwise)
  unfolding try_index
  try_index-Confined directory root fallback base t otherwise sent rest =
      let file = f.join base fallback in
      if_elim (Confined directory root fallback t)
        (not (is_empty fallback) && f.exists file && f.is_regular_file file)
        (send_file false file t) otherwise (λ e. sent (ground (arith, e))) (λ e. rest)

  last-Confined :
      (directory root fallback : Bytes) (t : Responder)
      → Confined directory root fallback t (try_index root fallback t (answer_not_found t))
  last-Confined directory root fallback t =
      try_index-Confined directory root fallback root t (answer_not_found t)
        (λ e. sends_root_index e refl) (missing refl)

  serve_file-Confined :
      (directory root fallback file : Bytes) (t : Responder)
      → Resolves directory t file
      → Confined directory root fallback t (serve_file root fallback file t)
  unfolding serve_file
  serve_file-Confined directory root fallback file t is =
      let last = try_index root fallback t (answer_not_found t) in
      let inner =
        if f.exists file && f.is_directory file then try_index file fallback t last else last in
      let found =
        if f.exists file && f.is_regular_file file then send_file false file t else inner in
      let on_last = last-Confined directory root fallback t in
      if_elim (Confined directory root fallback t) (not (starts_with root file)) (answer_denied t)
        found (λ e. denied refl)
        (λ e.
          let below : starts_with root file ≡ true = ground (arith, e) in
          if_elim (Confined directory root fallback t) (f.exists file && f.is_regular_file file)
            (send_file false file t) inner (λ k. sends file is below (ground (arith, k)) refl)
            (λ k.
              if_elim (Confined directory root fallback t) (f.exists file && f.is_directory file)
                (try_index file fallback t last) last
                (λ d.
                  try_index-Confined directory root fallback file t last
                    (λ i. sends_index file is below (ground (arith, d)) i refl) on_last)
                (λ d. on_last)))

  -- What the handler does: it throws, where the directory or the path cannot be resolved, or it is
  -- confined to the directory.
  pub data Served (directory fallback : Bytes) (t : Responder) (o : Outcome Responder)
      : Type 0 where
    lost_directory : f.canonical directory ≡ none → o ≡ threw t → Served directory fallback t o
    lost_path :
        f.weakly_canonical (f.join directory (get_param (codes "path") t.exchange.params)) ≡ none
        → o ≡ threw t
        → Served directory fallback t o
    returns :
        (root : Bytes) (u : Responder)
        → f.canonical directory ≡ some root
        → Confined directory root fallback t u
        → o ≡ returned u
        → Served directory fallback t o

  serve_resolved-Served :
      (directory root fallback : Bytes) (o : Option Bytes) (t : Responder)
      → f.canonical directory ≡ some root
      → f.weakly_canonical (f.join directory (get_param (codes "path") t.exchange.params)) ≡ o
      → Served directory fallback t (serve_resolved root fallback o t)
  unfolding serve_resolved
  serve_resolved-Served directory root fallback none t h is = lost_path is refl
  serve_resolved-Served directory root fallback (some file) t h is =
      returns root (serve_file root fallback file t) h
        (serve_file-Confined directory root fallback file t is) refl

  serve_under-Served :
      (directory fallback : Bytes) (o : Option Bytes) (t : Responder)
      → f.canonical directory ≡ o
      → Served directory fallback t (serve_under directory fallback o t)
  unfolding serve_under
  serve_under-Served directory fallback none t h = lost_directory h refl
  serve_under-Served directory fallback (some root) t h =
      let path = get_param (codes "path") t.exchange.params in
      if_elim (Served directory fallback t) (is_empty path)
        (returned (try_index root fallback t (answer_not_found t)))
        (serve_resolved root fallback (f.weakly_canonical (f.join directory path)) t)
        (λ e. returns root _ h (last-Confined directory root fallback t) refl)
        (λ e. serve_resolved-Served directory root fallback _ t h refl)

  -- The handler of `serve_static` throws, and then the directory or the path below it cannot be
  -- resolved; or the directory is resolved, and it sends the regular file that the path of the
  -- request below the directory is resolved to, which begins with what the directory is resolved
  -- to, or the fallback file, a regular one, of the resolved directory, or of a directory that the
  -- path is resolved to and that begins with it, or it answers that nothing was found or that
  -- access is denied.
  pub serve_static-Served :
      (directory fallback : Bytes) (t : Responder)
      → Served directory fallback t (serve_static directory fallback t)
  unfolding serve_static
  serve_static-Served directory fallback t =
      serve_under-Served directory fallback (f.canonical directory) t refl
