-- ===== src/Http/Types.antt =====
-- What a controller of NestJS declares of a handler by its decorators.
use bash_builder.Prelude.{Bool, true, false, List, String}
use bash_builder.Contracts.Roles.{Role, Capability}

pub data Method : Type 0 where
  get post put patch delete : Method

pub data Segment : Type 0 where
  fixed param : String → Segment

-- `@UseGuards` of the class and of the handler, in this order, with the list of the decorator
-- `@RequiredCapabilities` or `@RequiredRoles` that the guard reads.
pub data Guard : Type 0 where
  session : Guard
  capabilities : List Capability → Guard
  roles : List Role → Guard

-- A handler: its method, its path below `/api`, its guards and the operation it calls.
pub data Route : Type 0 where
  route : Method → List Segment → List Guard → String → Route

abbrev pub method_of : Route → Method
method_of (route method path guards handler) = method

abbrev pub guards_of : Route → List Guard
guards_of (route method path guards handler) = guards

abbrev pub handler_of : Route → String
handler_of (route method path guards handler) = handler

abbrev pub is_get : Method → Bool
is_get get = true
is_get _ = false
