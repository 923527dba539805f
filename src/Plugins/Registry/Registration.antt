-- ===== src/Plugins/Registry/Registration.antt =====
-- Registering plugins, of `Registry` in plugins/sdk.rs: a key is never overwritten.
use olwsx.Base.{
  Bytes, bytes_eq, bytes_eq_iff, ◌≡◌, none, some, [], ◌∷◌, Map, get, get-insert, contains_key-get,
  codes, arith, if◌then◌else◌,
}
use olwsx.Plugins.{Request, continue, ok, err, FilterPlugin, HandlerPlugin}
use olwsx.Plugins.Registry.{
  Registry, already_registered, new, register_filter, register_handler, filter, handle,
}

module _ {F H : Type 0} where
  -- One registration after the other, whatever each returns.
  unfoldable pub register_filters : Map F → Registry F H → Registry F H
  register_filters [] reg = reg
  register_filters ((k, p) ∷ more) reg = register_filters more (register_filter k p reg).0

  register_handlers : Map H → Registry F H → Registry F H
  register_handlers [] reg = reg
  register_handlers ((k, p) ∷ more) reg = register_handlers more (register_handler k p reg).0

  get-register_filter :
      (k q : Bytes) (p : F) (reg : Registry F H)
      → get q (register_filter k p reg).0.filters ≡ elim (get q reg.filters) [
        | some old ↦ some old
        | none ↦ if bytes_eq k q then some p else none
      ]
  unfolding register_filter
  get-register_filter k q p reg =
      ground (arith, get-insert k q p reg.filters, contains_key-get k reg.filters, bytes_eq_iff k q)

  get-register_handler :
      (k q : Bytes) (p : H) (reg : Registry F H)
      → get q (register_handler k p reg).0.handlers ≡ elim (get q reg.handlers) [
        | some old ↦ some old
        | none ↦ if bytes_eq k q then some p else none
      ]
  unfolding register_handler
  get-register_handler k q p reg =
      ground
        (arith, get-insert k q p reg.handlers, contains_key-get k reg.handlers, bytes_eq_iff k q)

  get-register_filters :
      (regs : Map F) (q : Bytes) (reg : Registry F H)
      → get q (register_filters regs reg).filters
        ≡ elim (get q reg.filters) [ some old ↦ some old | none ↦ get q regs ]
  unfolding register_filters
  get-register_filters [] q reg = ground arith
  get-register_filters ((k, p) ∷ more) q reg = ground (
    arith,
    get-register_filters more q (register_filter k p reg).0,
    get-register_filter k q p reg,
  )

  get-register_handlers :
      (regs : Map H) (q : Bytes) (reg : Registry F H)
      → get q (register_handlers regs reg).handlers
        ≡ elim (get q reg.handlers) [ some old ↦ some old | none ↦ get q regs ]
  unfolding register_handlers
  get-register_handlers [] q reg = ground arith
  get-register_handlers ((k, p) ∷ more) q reg = ground (
    arith,
    get-register_handlers more q (register_handler k p reg).0,
    get-register_handler k q p reg,
  )

module _ {F H : Type 0} (fs : FilterPlugin F) (hs : HandlerPlugin H) where
  -- After any registrations of filters on a new registry, a request goes to the filter that was the
  -- first registered under the key, and continues when there is none; one more registration under
  -- the key returns an error exactly when there is one.
  pub filter-register_filters :
      (regs : Map F) (q : Bytes) (req : Request) (late : F)
      → (filter fs hs q req (register_filters regs new)
          ≡ elim (get q regs) [ none ↦ continue | some p ↦ fs.process p req ])
        × ((register_filter {F = F} {H = H} q late (register_filters regs new)).1
            ≡ elim (get q regs) [
              | none ↦ ok
              | some p ↦ err (already_registered (codes "filter") q)
            ])
  unfolding filter register_filter new
  filter-register_filters regs q req late =
      let found = get-register_filters {F = F} {H = H} regs q new in
      (
        ground (arith, found),
        ground
            (arith, found, contains_key-get q (register_filters {F = F} {H = H} regs new).filters),
      )

  -- After any registrations of handlers on a new registry, a request is answered by the handler
  -- that was the first registered under the key, and by nothing when there is none; one more
  -- registration under the key returns an error exactly when there is one.
  handle-register_handlers :
      (regs : Map H) (q : Bytes) (req : Request) (late : H)
      → (handle fs hs q req (register_handlers regs new)
          ≡ elim (get q regs) [ none ↦ none | some p ↦ some (hs.handle p req) ])
        × ((register_handler {F = F} {H = H} q late (register_handlers regs new)).1
            ≡ elim (get q regs) [
              | none ↦ ok
              | some p ↦ err (already_registered (codes "handler") q)
            ])
  unfolding handle register_handler new
  handle-register_handlers regs q req late =
      let found = get-register_handlers {F = F} {H = H} regs q new in
      (
        ground (arith, found),
        ground (
          arith,
          found,
          contains_key-get q (register_handlers {F = F} {H = H} regs new).handlers,
        ),
      )
